-- ===== src/Outcomes/Queue/Accepts.antt =====
-- outcome_queue.py and adjudicate.py: what a settlement writes, and that it accepts an adjudication.
use doug.Prelude.{
  ℕ, String, ◌≡◌, refl, ◌∙◌, sym, Bool, true, not, ◌&&◌, ◌||◌, Option, List, [], nat_eq, string_eq,
  arith, all-of_All, any-true, All-of_In, All-at, In, here, there, Bool-cases, inl, inr, ◌⊎◌,
}
use mathlib.Core.Path.{subst}
use doug.Outcomes.Rows.{DateTime, OutcomeJob, Commit, Outcome, Unadjudicable, DateError}
use doug.Outcomes.Adjudicate.{ok, value_error, revert_instant_of, classify}
use doug.Outcomes.Adjudicate.Accounting.{Deals, nothing, classified, refused}
use doug.Outcomes.Queue.Dictionaries.{
  Identity, has_key, dict_from, accounts_for, identity, outcome_identity,
}
use doug.Outcomes.Queue.Dict.{same_identity-same, dict_from-keys, has_key-dict_from}

abbrev pub jobs_of : List OutcomeJob → List (Identity × OutcomeJob)
jobs_of jobs = dict_from identity (λ j. j) [] jobs

abbrev pub classified_of : List Outcome → List (Identity × Outcome)
classified_of os = dict_from outcome_identity (λ o. o) [] os

abbrev pub refused_of : List Unadjudicable → List (Identity × Unadjudicable)
refused_of us = dict_from (λ (u : Unadjudicable). identity u.job) (λ u. u) [] us

either_of : {a b : Bool} → (a ≡ true) ⊎ (b ≡ true) → (a || b) ≡ true
either_of (inl h) = ground arith
either_of (inr h) = ground arith

all_four : {a b c d : Bool} → a ≡ true → b ≡ true → c ≡ true → d ≡ true → (a && b && c && d) ≡ true
all_four p q r s = ground arith

module _ (fromisoformat : String → Option DateTime) (revert_map : ℕ → Option Commit)
    (branch : Option String) where
  abbrev IsRead : ℕ → Type 0
  IsRead pr = (r : Option _) × (revert_instant_of fromisoformat (revert_map pr) ≡ ok r)

  abbrev IsUnread : ℕ → Type 0
  IsUnread pr = (e : DateError) × (revert_instant_of fromisoformat (revert_map pr) ≡ value_error e)

  -- Where each identity of an adjudication comes from.
  Deals-outcome :
      {jobs : List OutcomeJob} {os : List Outcome} {us : List Unadjudicable} {o : Outcome}
      → Deals fromisoformat revert_map branch jobs os us
      → In o os
      → ((j : OutcomeJob) × In j jobs × (identity j ≡ outcome_identity o)) × IsRead o.pr_number
  unfolding classify
  Deals-outcome nothing m = elim m [ ]
  Deals-outcome (classified job r e d) here = ((job, here, refl), (r, e))
  Deals-outcome (classified job r e d) (there m) =
      let ((j, n, f), read) = Deals-outcome d m in ((j, there n, f), read)
  Deals-outcome (refused job x e d) m =
      let ((j, n, f), read) = Deals-outcome d m in ((j, there n, f), read)

  Deals-refusal :
      {jobs : List OutcomeJob} {os : List Outcome} {us : List Unadjudicable} {u : Unadjudicable}
      → Deals fromisoformat revert_map branch jobs os us
      → In u us
      → In u.job jobs × IsUnread u.job.pr_number
  Deals-refusal nothing m = elim m [ ]
  Deals-refusal (refused job x e d) here = (here, (x, e))
  Deals-refusal (refused job x e d) (there m) =
      let (n, unread) = Deals-refusal d m in (there n, unread)
  Deals-refusal (classified job r e d) m = let (n, unread) = Deals-refusal d m in (there n, unread)

  -- Each job has its outcome or its refusal.
  Deals-job :
      {jobs : List OutcomeJob} {os : List Outcome} {us : List Unadjudicable} {j : OutcomeJob}
      → Deals fromisoformat revert_map branch jobs os us
      → In j jobs
      → ((o : Outcome) × In o os × (outcome_identity o ≡ identity j))
        ⊎ ((u : Unadjudicable) × In u us × (identity u.job ≡ identity j))
  unfolding classify
  Deals-job nothing m = elim m [ ]
  Deals-job (classified job r e d) here =
      inl (classify job (revert_map job.pr_number) r branch, here, refl)
  Deals-job (refused job x e d) here = inr (record { job = job; reason = x }, here, refl)
  Deals-job (classified job r e d) (there m) = elim (Deals-job d m) [
    | inl (o, n, f) ↦ inl (o, there n, f)
    | inr found ↦ inr found
  ]
  Deals-job (refused job x e d) (there m) = elim (Deals-job d m) [
    | inl found ↦ inl found
    | inr (u, n, f) ↦ inr (u, there n, f)
  ]

  module _ {jobs : List OutcomeJob} {os : List Outcome} {us : List Unadjudicable}
      (d : Deals fromisoformat revert_map branch jobs os us) where
    job-IsAccounted :
        (j : OutcomeJob)
        → In j jobs
        → (has_key (classified_of os) (identity j) || has_key (refused_of us) (identity j)) ≡ true
    job-IsAccounted j m = elim (Deals-job d m) [
      | inl (o, n, f) ↦
          let it =
            subst (λ k. has_key (classified_of os) k ≡ true) f
              (has_key-dict_from outcome_identity (λ o. o) [] n) in
          either_of (inl it)
      | inr (u, n, f) ↦
          let it =
            subst (λ k. has_key (refused_of us) k ≡ true) f
              (has_key-dict_from (λ (u : Unadjudicable). identity u.job) (λ u. u) [] n) in
          either_of (inr it)
    ]

    outcome-IsClaimed : (o : Outcome) → In o os → has_key (jobs_of jobs) (outcome_identity o) ≡ true
    outcome-IsClaimed o m =
        let ((j, n, f), read) = Deals-outcome d m in
        subst (λ k. has_key (jobs_of jobs) k ≡ true) f (has_key-dict_from identity (λ j. j) [] n)

    refusal-IsClaimed :
        (u : Unadjudicable) → In u us → has_key (jobs_of jobs) (identity u.job) ≡ true
    refusal-IsClaimed u m = has_key-dict_from identity (λ j. j) [] (Deals-refusal d m).0

    -- The date of one pull request's revert cannot be both readable and not.
    outcome-not_refused :
        (o : Outcome) → In o os → not (has_key (refused_of us) (outcome_identity o)) ≡ true
    outcome-not_refused o m = elim (Bool-cases (has_key (refused_of us) (outcome_identity o))) [
      | inl e ↦
          let (entry, n, same) = any-true _ (refused_of us) e in
          let unread =
            All-at (λ e. IsUnread e.0.0)
              (dict_from-keys (λ (u : Unadjudicable). identity u.job) (λ u. u) (λ k. IsUnread k.0)
                us [] (All-of_In _ us (λ u i. (Deals-refusal d i).1)) tt)
              n in
          let at : entry.0 ≡ outcome_identity o = same_identity-same entry.0 _ same in
          let (r, read) = (Deals-outcome d m).1 in
          let (x, lost) = subst (λ k. IsUnread k.0) at unread in
          let both : ok r ≡ value_error x = sym read ∙ lost in ground arith
      | inr e ↦ rw e refl
    ]

    pub Deals-accounts_for : accounts_for (jobs_of jobs) (classified_of os) (refused_of us) ≡ true
    unfolding accounts_for
    Deals-accounts_for =
        all_four
          (all-of_All _ (jobs_of jobs) (
            dict_from-keys identity (λ j. j)
              (λ k. (has_key (classified_of os) k || has_key (refused_of us) k) ≡ true) jobs []
              (All-of_In _ jobs job-IsAccounted) tt))
          (all-of_All _ (classified_of os) (
            dict_from-keys outcome_identity (λ o. o) (λ k. has_key (jobs_of jobs) k ≡ true) os []
              (All-of_In _ os outcome-IsClaimed) tt))
          (all-of_All _ (refused_of us) (
            dict_from-keys (λ (u : Unadjudicable). identity u.job) (λ u. u)
              (λ k. has_key (jobs_of jobs) k ≡ true) us [] (All-of_In _ us refusal-IsClaimed) tt))
          (all-of_All _ (classified_of os) (
            dict_from-keys outcome_identity (λ o. o) (λ k. not (has_key (refused_of us) k) ≡ true)
              os [] (All-of_In _ os outcome-not_refused) tt))
