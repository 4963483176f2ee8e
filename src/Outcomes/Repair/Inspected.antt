-- ===== src/Outcomes/Repair/Inspected.antt =====
-- transfer_repair.py: what `inspect` reports is a censoring that a transfer caused.
use doug.Prelude.{
  ℕ, ◌≡◌, ◌≢◌, refl, ap, sym, true, Option, none, some, List, [], ◌∷◌, map, keep, ◌==◌, nat_eq,
  string_eq, option_eq, list_eq, option_beq_iff, nat_beq_iff, arith, All, All-of_In, In, here,
  there, In-map, In-keep, keep-In, In-sort_by, In-any, Bool-cases, Option-cases, inl, inr, Text,
  codes,
}
use mathlib.Core.Bool.{false≢true}
use mathlib.Core.Path.{subst}
use doug.Prelude.{sort_by-In, All-map_at, All-at, ◌∙◌}
use doug.Outcomes.Rows.{OutcomeJob}
use doug.Outcomes.Queue.{InstallationRepo, live_registration}
use doug.Outcomes.Queue.Worker.{Run, returned, escaped}
use doug.Outcomes.Repair.{StoredOutcome, Db, RepairRow, has, installation_of, live_installation}
use doug.Outcomes.Repair.Live.{live_installation-agrees}
use doug.Outcomes.Repair.Steps.{
  number, is_set, is_candidate, listed_before, candidates, of_outcome, repair_row, add_to,
  is_transferred, inspect_rows, inspect,
}

none≢some : {n : ℕ} → none ≢ some n
none≢some h = ground arith

some_id : {m n : ℕ} → some m ≡ some n → m ≡ n
some_id h = cc

only_one : {i j : OutcomeJob} → In i (j ∷ []) → i ≡ j
only_one here = refl
only_one (there m) = elim m [ ]

module _ (censor_reason : Option Text → Option Text) where
  -- A censoring that a transfer caused: its own installation is not the one that the outcome lane would
  -- read the repository through now.
  abbrev pub IsTransferred : Db → StoredOutcome → Type 0
  IsTransferred db o =
      ((o.kind == "censored") ≡ true)
      × (censor_reason o.detail ≡ some (codes "unreachable"))
      × ((repo : ℕ) × (o.github_repo_id ≡ some repo)
          × (r : InstallationRepo) × (live_registration db.ledger repo ≡ some r)
          × (o.installation_id ≢ some r.installation_id))

  -- A row of the report: such an outcome, and the one job of it, if there is one.
  abbrev pub Reports : Db → RepairRow → Type 0
  Reports db row =
      (o : StoredOutcome) × In o db.outcomes
      × (o.id ≡ row.outcome_id)
      × IsTransferred db o
      × ((id : ℕ)
          → row.job_id ≡ some id
          → (j : OutcomeJob) × In j db.ledger.jobs × (j.id ≡ id) × (of_outcome o j ≡ true))
      × ((j : OutcomeJob) → In j db.ledger.jobs → of_outcome o j ≡ true → row.job_id ≡ some j.id)

  -- What a run of the loop of `inspect` answers.
  abbrev pub AllReport : Db → Run (List RepairRow) → Type 0
  AllReport db escaped = Unit
  AllReport db (returned rows) = All (Reports db) rows

  -- An outcome that `inspect` is to report.
  pub IsDue : Db → StoredOutcome → Type 0
  IsDue db o = IsTransferred db o × (is_candidate o ≡ true)

  abbrev pub Finds : Db → List StoredOutcome → Run (List RepairRow) → Type 0
  Finds db os escaped = Unit
  Finds db os (returned rows) = All (λ o. IsDue db o → In o.id (map (λ r. r.outcome_id) rows)) os

  row-Finds :
      (db : Db) (o : StoredOutcome) (os : List StoredOutcome) (successor : ℕ) (window : Option ℕ)
      (jobs : List OutcomeJob) (rest : Run (List RepairRow))
      → Finds db os rest
      → Finds db (o ∷ os) (add_to (repair_row o successor window jobs) rest)
  row-Finds db o os s none jobs rest h = tt
  row-Finds db o os s (some w) [] escaped h = tt
  row-Finds db o os s (some w) [] (returned rows) h =
      ((λ due. here), All-map_at (λ x f due. there (f due)) os h)
  row-Finds db o os s (some w) (j ∷ []) escaped h = tt
  row-Finds db o os s (some w) (j ∷ []) (returned rows) h =
      ((λ due. here), All-map_at (λ x f due. there (f due)) os h)
  row-Finds db o os s (some w) (j ∷ i ∷ jobs) rest h = tt

  skip-Finds :
      (db : Db) (o : StoredOutcome) (os : List StoredOutcome) (rest : Run (List RepairRow))
      → ¬ (IsDue db o)
      → Finds db os rest
      → Finds db (o ∷ os) rest
  skip-Finds db o os escaped undue h = tt
  skip-Finds db o os (returned rows) undue h = ((λ due. absurd (undue due)), h)

  -- The test of the loop finds each transferred outcome.
  IsTransferred-known :
      (db : Db) (repos : List ℕ) (o : StoredOutcome)
      → has repos (number o.github_repo_id) ≡ true
      → IsTransferred db o
      → is_transferred censor_reason o (live_installation db.ledger repos (number o.github_repo_id))
        ≡ true
  IsTransferred-known db repos o asked (c, reason, (repo, g, r, e, other)) =
      let asked' : has repos repo ≡ true = rw g at asked in
      let live : live_installation db.ledger repos repo ≡ some r.installation_id =
        live_installation-agrees db.ledger repos repo asked' ∙ ap installation_of e in
      let said = (option_beq_iff (censor_reason o.detail) (some (codes "unreachable"))).1 reason in
      rw (g, live)
        (elim (Bool-cases (o.installation_id == some r.installation_id)) [
          | inl same ↦
              absurd (other ((option_beq_iff o.installation_id (some r.installation_id)).0 same))
          | inr f ↦ rw (f, said) refl
        ])

  inspect_rows-Finds :
      (db : Db) (repos : List ℕ) (os : List StoredOutcome)
      → All (λ o. has repos (number o.github_repo_id) ≡ true) os
      → Finds db os (inspect_rows censor_reason db repos os)
  unfolding inspect_rows IsDue
  inspect_rows-Finds db repos [] h = tt
  inspect_rows-Finds db repos (o ∷ os) (asked, h) =
      let live = live_installation db.ledger repos (number o.github_repo_id) in
      let rest = inspect_rows-Finds db repos os h in
      elim (Bool-cases (is_transferred censor_reason o live)) [
        | inr e ↦
            rw (e, inspect_rows)
              (skip-Finds db o os (inspect_rows censor_reason db repos os)
                (λ due. false≢true (sym e ∙ IsTransferred-known db repos o asked due.0)) rest)
        | inl e ↦
            rw (e, inspect_rows)
              (row-Finds db o os (number live) o.window_days (keep (of_outcome o) db.ledger.jobs)
                (inspect_rows censor_reason db repos os) rest)
      ]

  pub inspect-Finds :
      (db : Db) {rows : List RepairRow}
      → inspect censor_reason db ≡ returned rows
      → (o : StoredOutcome) → In o db.outcomes
      → IsDue db o
      → In o.id (map (λ r. r.outcome_id) rows)
  unfolding inspect candidates IsDue
  inspect-Finds db {rows} e o m due =
      let found = candidates db in
      let repos = map (λ o. number o.github_repo_id) found in
      let all : Finds db found (inspect censor_reason db) = inspect_rows-Finds db repos found (
        All-of_In _ found (λ x n.
          In-any (λ i. i == number x.github_repo_id) (In-map (λ y. number y.github_repo_id) n)
            ((nat_beq_iff (number x.github_repo_id) (number x.github_repo_id)).1 refl))) in
      let these : Finds db found (returned rows) = subst (Finds db found) e all in
      All-at _ these (sort_by-In listed_before (keep-In is_candidate m due.1)) due

  row-Reports :
      (db : Db) (o : StoredOutcome) (successor : ℕ) (window : Option ℕ) (jobs : List OutcomeJob)
      (rest : Run (List RepairRow))
      → In o db.outcomes
      → IsTransferred db o
      → All (λ j. In j db.ledger.jobs × (of_outcome o j ≡ true)) jobs
      → ((j : OutcomeJob) → In j db.ledger.jobs → of_outcome o j ≡ true → In j jobs)
      → AllReport db rest
      → AllReport db (add_to (repair_row o successor window jobs) rest)
  row-Reports db o s none jobs rest m t h u k = tt
  row-Reports db o s (some w) [] escaped m t h u k = tt
  row-Reports db o s (some w) [] (returned rows) m t h u k =
      ((o, m, refl, t, λ id e. absurd (none≢some e), λ i n f. elim (u i n f) [ ]), k)
  row-Reports db o s (some w) (j ∷ []) escaped m t h u k = tt
  row-Reports db o s (some w) (j ∷ []) (returned rows) m t h u k = (
    (
      o,
      m,
      refl,
      t,
      λ id e. (j, h.0.0, some_id e, h.0.1),
      λ i n f. ap (λ (x : OutcomeJob). some x.id) (sym (only_one (u i n f))),
    ),
    k,
  )
  row-Reports db o s (some w) (j ∷ i ∷ jobs) rest m t h u k = tt

  -- The test of the loop, where the repository's registration is known.
  known-IsTransferred :
      (db : Db) (o : StoredOutcome) (repo : ℕ) (live : Option InstallationRepo)
      → (o.kind == "censored") ≡ true
      → o.github_repo_id ≡ some repo
      → live_registration db.ledger repo ≡ live
      → is_transferred censor_reason o (installation_of live) ≡ true
      → IsTransferred db o
  known-IsTransferred db o repo none c g e h = ground arith
  known-IsTransferred db o repo (some r) c g e h =
      let reason = option_beq_iff (censor_reason o.detail) (some (codes "unreachable")) in
      let other = option_beq_iff o.installation_id (some r.installation_id) in
      (c, reason.0 (ground arith), (repo, g, r, e, λ same. clash (other.1 same) h))
    where
      clash :
          (o.installation_id == some r.installation_id) ≡ true
          → is_transferred censor_reason o (some r.installation_id) ≡ true
          → ⊥
      clash t k = ground arith

  candidate-IsTransferred :
      (db : Db) (repos : List ℕ) (o : StoredOutcome)
      → is_candidate o ≡ true
      → has repos (number o.github_repo_id) ≡ true
      → is_transferred censor_reason o (live_installation db.ledger repos (number o.github_repo_id))
        ≡ true
      → IsTransferred db o
  unfolding is_candidate
  candidate-IsTransferred db repos o c asked h = elim (Option-cases o.github_repo_id) [
    | inl e ↦ let lost : is_set none ≡ true = rw e at (is_set_of c) in ground arith
    | inr (repo, e) ↦
        let asked' : has repos repo ≡ true = rw e at asked in
        let h' : is_transferred censor_reason o (live_installation db.ledger repos repo) ≡ true =
          rw e at h in
        let agreed = live_installation-agrees db.ledger repos repo asked' in
        known-IsTransferred db o repo (live_registration db.ledger repo) (ground arith) e refl
          (rw agreed at h')
  ]
    where
      is_set_of : is_candidate o ≡ true → is_set o.github_repo_id ≡ true
      is_set_of k = ground arith

  inspect_rows-Reports :
      (db : Db) (repos : List ℕ) (os : List StoredOutcome)
      → All
          (λ o.
            In o db.outcomes
            × (is_candidate o ≡ true)
            × (has repos (number o.github_repo_id) ≡ true))
          os
      → AllReport db (inspect_rows censor_reason db repos os)
  unfolding inspect_rows
  inspect_rows-Reports db repos [] h = tt
  inspect_rows-Reports db repos (o ∷ os) ((m, c, asked), h) =
      let live = live_installation db.ledger repos (number o.github_repo_id) in
      let rest = inspect_rows-Reports db repos os h in
      elim (Bool-cases (is_transferred censor_reason o live)) [
        | inr e ↦ rw (e, inspect_rows) rest
        | inl e ↦
            rw (e, inspect_rows)
              (row-Reports db o (number live) o.window_days (keep (of_outcome o) db.ledger.jobs)
                (inspect_rows censor_reason db repos os) m
                (candidate-IsTransferred db repos o c asked e)
                (All-of_In (λ j. In j db.ledger.jobs × (of_outcome o j ≡ true)) _
                  (λ j n. In-keep (of_outcome o) db.ledger.jobs n))
                (λ j n f. keep-In (of_outcome o) n f) rest)
      ]

  pub inspect-Reports : (db : Db) → AllReport db (inspect censor_reason db)
  unfolding inspect candidates
  inspect-Reports db =
      let repos = map (λ o. number o.github_repo_id) (candidates db) in
      inspect_rows-Reports db repos (candidates db) (
        All-of_In
          (λ o.
            In o db.outcomes
            × (is_candidate o ≡ true)
            × (has repos (number o.github_repo_id) ≡ true))
          (candidates db)
          (λ o m.
            let (n, c) = In-keep is_candidate db.outcomes (In-sort_by listed_before _ m) in
            (
              n,
              c,
              In-any (λ i. i == number o.github_repo_id) (In-map (λ x. number x.github_repo_id) m)
                  ((nat_beq_iff (number o.github_repo_id) (number o.github_repo_id)).1 refl),
            )))
