-- ===== src/Outcomes/Adjudicate/Dealt.antt =====
-- adjudicate.py: what `adjudicate` says of each job, told from the dates and the rows alone.
use doug.Prelude.{ℕ, String, ◌≡◌, refl, Option, none, some, List, [], ◌∷◌}
use mathlib.Core.Path.{subst}
use doug.Prelude.Int.{ℤ, ◌-ℤ◌}
use doug.Outcomes.Rows.{
  DateTime, OutcomeJob, Commit, Outcome, DateError, unparseable, no_offset, Unadjudicable,
}
use doug.Outcomes.Adjudicate.{
  Result, ok, value_error, window_starts_at, window_ends_at, disposition, classify, instant_of,
  commit_instant, revert_instant_of, adjudicate, sha_of,
}
use doug.Outcomes.Adjudicate.Accounting.{Deals, nothing, classified, refused, adjudicate-Deals}

module _ (fromisoformat : String → Option DateTime) where
  -- The instant of a commit in UTC: its date can be read and carries an offset.
  pub data IsDated : Option Commit → Option ℤ → Type 0 where
    not_attributed : IsDated none none
    dated :
        (c : Commit) (t : DateTime) {offset : ℤ}
        → fromisoformat c.date ≡ some t
        → t.utcoffset ≡ some offset
        → IsDated (some c) (some (t.clock -ℤ offset))

  -- The date cannot be read, or carries no offset.
  pub data IsUndated : Option Commit → DateError → Type 0 where
    unread : (c : Commit) → fromisoformat c.date ≡ none → IsUndated (some c) (unparseable c.date)
    unplaced :
        (c : Commit) (t : DateTime)
        → fromisoformat c.date ≡ some t
        → t.utcoffset ≡ none
        → IsUndated (some c) (no_offset c.date)

-- The outcome is about the job, and says how it was decided.
pub record IsOutcomeOf (job : OutcomeJob) (c : Option Commit) (r : Option ℤ)
    (branch : Option String) (o : Outcome) : Type 0 where
  pub its_installation : o.installation_id ≡ job.installation_id
  pub its_repository : o.github_repo_id ≡ job.github_repo_id
  pub its_pull_request : o.pr_number ≡ job.pr_number
  pub its_window : o.window_days ≡ job.window_days
  pub its_merge : o.merge_commit_sha ≡ job.merge_commit_sha
  pub its_anchor : o.detail.anchor_sha ≡ job.merge_commit_sha
  pub its_base : o.detail.base_ref ≡ job.base_ref
  pub its_branch : o.detail.default_branch ≡ branch
  pub its_revert : (o.detail.revert_sha ≡ sha_of c) × (o.detail.revert_instant ≡ r)
  pub its_bounds :
      (o.detail.window_starts_at ≡ window_starts_at job)
      × (o.detail.window_ends_at ≡ window_ends_at job)
  pub its_disposition : (o.kind, o.detail.censor_reason) ≡ disposition job r branch

classify-IsOutcomeOf :
    (job : OutcomeJob) (c : Option Commit) (r : Option ℤ) (branch : Option String)
    → IsOutcomeOf job c r branch (classify job c r branch)
unfolding classify
classify-IsOutcomeOf job c r branch = record {
  its_installation = refl;
  its_repository = refl;
  its_pull_request = refl;
  its_window = refl;
  its_merge = refl;
  its_anchor = refl;
  its_base = refl;
  its_branch = refl;
  its_revert = (refl, refl);
  its_bounds = (refl, refl);
  its_disposition = refl;
}

or_error : Result ℤ → Result (Option ℤ)
or_error r = elim r [ ok t ↦ ok (some t) | value_error e ↦ value_error e ]

module _ (fromisoformat : String → Option DateTime) (revert_map : ℕ → Option Commit)
    (branch : Option String) where
  -- The jobs in their order, each with one result.
  pub data IsDealt : List OutcomeJob → List Outcome → List Unadjudicable → Type 0 where
    no_job : IsDealt [] [] []
    with_outcome :
        {jobs : List OutcomeJob} {os : List Outcome} {us : List Unadjudicable} (job : OutcomeJob)
        (r : Option ℤ) (o : Outcome)
        → IsDated fromisoformat (revert_map job.pr_number) r
        → IsOutcomeOf job (revert_map job.pr_number) r branch o
        → IsDealt jobs os us
        → IsDealt (job ∷ jobs) (o ∷ os) us
    with_refusal :
        {jobs : List OutcomeJob} {os : List Outcome} {us : List Unadjudicable} (job : OutcomeJob)
        (e : DateError)
        → IsUndated fromisoformat (revert_map job.pr_number) e
        → IsDealt jobs os us
        → IsDealt (job ∷ jobs) os (record { job = job; reason = e } ∷ us)

  Tells : Option Commit → Result (Option ℤ) → Type 0
  Tells c (ok r) = IsDated fromisoformat c r
  Tells c (value_error e) = IsUndated fromisoformat c e

  placed-Tells :
      (c : Commit) (t : DateTime)
      → fromisoformat c.date ≡ some t
      → (offset : Option ℤ) → t.utcoffset ≡ offset
      → Tells (some c) (or_error (instant_of c.date (some (record t { utcoffset = offset }))))
  unfolding instant_of Tells or_error
  placed-Tells c t e none f = unplaced c t e f
  placed-Tells c t e (some offset) f = dated c t e f

  parsed-Tells :
      (c : Commit) (t : Option DateTime)
      → fromisoformat c.date ≡ t
      → Tells (some c) (or_error (instant_of c.date t))
  unfolding instant_of Tells or_error
  parsed-Tells c none e = unread c e
  parsed-Tells c (some t) e = placed-Tells c t e t.utcoffset refl

  revert_instant_of-Tells : (c : Option Commit) → Tells c (revert_instant_of fromisoformat c)
  unfolding revert_instant_of commit_instant or_error Tells
  revert_instant_of-Tells none = not_attributed
  revert_instant_of-Tells (some c) = parsed-Tells c (fromisoformat c.date) refl

  dealt :
      {jobs : List OutcomeJob} {os : List Outcome} {us : List Unadjudicable}
      → Deals fromisoformat revert_map branch jobs os us
      → IsDealt jobs os us
  unfolding Tells
  dealt nothing = no_job
  dealt (classified job r e d) =
      let reads : Tells (revert_map job.pr_number) (ok r) =
        subst (Tells (revert_map job.pr_number)) e
          (revert_instant_of-Tells (revert_map job.pr_number)) in
      with_outcome job r _ reads (classify-IsOutcomeOf job (revert_map job.pr_number) r branch)
        (dealt d)
  dealt (refused job x e d) =
      let reads : Tells (revert_map job.pr_number) (value_error x) =
        subst (Tells (revert_map job.pr_number)) e
          (revert_instant_of-Tells (revert_map job.pr_number)) in
      with_refusal job x reads (dealt d)

  -- `adjudicate` gives exactly one result to each job, in the jobs' order. Where no revert is
  -- attributed to the job's pull request, or the date of the attributed one can be read and carries an
  -- offset, it is an outcome that names the job's installation, repository, pull request, window and
  -- merge commit, that records the revert with its instant in UTC, the window, the base and the
  -- branch, and whose kind and reason are the disposition of the job at that instant. Otherwise it is
  -- a refusal of the job that says whether the date cannot be read or carries no offset.
  pub adjudicate-IsDealt :
      (jobs : List OutcomeJob)
      → let a = adjudicate fromisoformat revert_map branch jobs in
        IsDealt jobs a.outcomes a.unadjudicable
  adjudicate-IsDealt jobs = dealt (adjudicate-Deals fromisoformat revert_map branch jobs)
