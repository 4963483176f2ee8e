-- ===== src/Outcomes/Queue/Settlement.antt =====
-- outcome_queue.py: what each answer of `settle_batch` leaves in the ledger.
use doug.Prelude.{
  ℕ, String, ◌≡◌, ◌≢◌, refl, ◌∙◌, sym, true, Option, none, some, List, [], ◌∷◌, ◌++◌, map, ◌==◌,
  nat_eq, arith, Bool-cases, Option-cases, inl, inr, length, count_if, Text,
}
use mathlib.Core.Path.{subst}
use mathlib.Core.List.{append_assoc, append-nil}
use doug.Outcomes.Rows.{
  DateTime, OutcomeJob, Commit, Outcome, Unadjudicable, Adjudication, DateError,
}
use doug.Outcomes.Adjudicate.{adjudicate}
use doug.Outcomes.Adjudicate.Accounting.{adjudicate-Deals}
use doug.Outcomes.Queue.{
  ClaimedBatch, OutcomeRow, Ledger, Result, ok, lost_claim, value_error, max_attempts,
}
use doug.Outcomes.Queue.Settle.{
  claims_are_current, held_by, update_one, fail_job, finish_row, outcome_row, settle_one,
  settle_all, refuse_all, commit, settle_batch, ◌>>=◌,
}
use doug.Outcomes.Queue.Dictionaries.{Identity, accounts_for, lookup}
use doug.Outcomes.Queue.Accepts.{jobs_of, classified_of, refused_of, Deals-accounts_for}

-- What a run that commits leaves of the outcomes, if it commits.
abbrev pub Leaves : List OutcomeRow → Option Ledger → Type 0
Leaves rows none = Unit
Leaves rows (some l) = l.outcomes ≡ rows

pub update_one-outcomes :
    (job : OutcomeJob) (f : OutcomeJob → OutcomeJob) (l : Ledger)
    → Leaves l.outcomes (update_one job f l)
unfolding update_one
update_one-outcomes job f l = elim (Bool-cases (count_if (held_by job) l.jobs == 1)) [
  | inl e ↦ rw e refl
  | inr e ↦ rw e tt
]

pub then-Leaves :
    (f : Ledger → Option Ledger) (before after : List OutcomeRow)
    → ((l : Ledger) → l.outcomes ≡ before → Leaves after (f l))
    → (l : Option Ledger) → Leaves before l
    → Leaves after (l >>= f)
then-Leaves f before after step none h = tt
then-Leaves f before after step (some l) h = step l h

module _ (jobs : List (Identity × OutcomeJob)) (now : ℕ) where
  settle_one-Leaves :
      (row : OutcomeRow) (k : Identity) (l : Ledger)
      → Leaves (l.outcomes ++ row ∷ []) (settle_one jobs now row k l)
  unfolding settle_one
  settle_one-Leaves row k l = elim (Option-cases (lookup k jobs)) [
    | inl e ↦ rw e tt
    | inr (job, e) ↦ rw e (update_one-outcomes job (finish_row now) _)
  ]

  settle_all-Leaves :
      (repo : String) (at : ℕ) (hash : String) (found : List (Identity × Outcome)) (l : Ledger)
      (rows : List OutcomeRow)
      → l.outcomes ≡ rows
      → Leaves
          (rows ++ map (λ e. outcome_row repo at hash e.1) found)
          (settle_all jobs now repo at hash found l)
  unfolding settle_all
  settle_all-Leaves repo at hash [] l rows h = h ∙ sym (append-nil rows)
  settle_all-Leaves repo at hash ((k, o) ∷ rest) l rows h =
      let row = outcome_row repo at hash o in
      then-Leaves (settle_all jobs now repo at hash rest) (rows ++ row ∷ []) _
        (λ l' e.
          subst (λ all. Leaves all (settle_all jobs now repo at hash rest l'))
            (append_assoc rows (row ∷ []) _) (settle_all-Leaves repo at hash rest l' _ e))
        _
        (subst (λ r. Leaves (r ++ row ∷ []) (settle_one jobs now row k l)) h
          (settle_one-Leaves row k l))

  refuse_all-Leaves :
      (message : DateError → Text) (refused : List (Identity × Unadjudicable)) (l : Ledger)
      (rows : List OutcomeRow)
      → l.outcomes ≡ rows
      → Leaves rows (refuse_all jobs now message refused l)
  unfolding refuse_all fail_job
  refuse_all-Leaves message [] l rows h = h
  refuse_all-Leaves message ((k, u) ∷ rest) l rows h =
      then-Leaves (refuse_all jobs now message rest) rows rows
        (λ l' e. refuse_all-Leaves message rest l' rows e) _
        (elim (Option-cases (lookup k jobs)) [
          | inl e ↦ rw e tt
          | inr (job, e) ↦ rw e (
              subst (λ r. Leaves r (fail_job job (message u.reason) now max_attempts l)) h
                (update_one-outcomes job _ l))
        ])

-- What an answer of the settlement says of the ledger that it leaves.
abbrev pub Answers : List OutcomeRow → ℕ → ℕ → Ledger → Result (ℕ × ℕ) × Ledger → Type 0
Answers rows c r l (ok (classified, refused), l') =
    (classified ≡ c) × (refused ≡ r) × (l'.outcomes ≡ l.outcomes ++ rows)
Answers rows c r l (lost_claim, l') = l' ≡ l
Answers rows c r l (value_error, l') = l' ≡ l

commit-Answers :
    (rows : List OutcomeRow) (c r : ℕ) (l : Ledger) (written : Option Ledger)
    → Leaves (l.outcomes ++ rows) written
    → Answers rows c r l (commit (c, r) l written)
commit-Answers rows c r l none h = refl
commit-Answers rows c r l (some l') h = (refl, refl, h)

module _ (message : DateError → Text) (batch : ClaimedBatch) (a : Adjudication) (repo : String)
    (at : ℕ) (hash : String) (now : ℕ) (l : Ledger) where
  -- `settle_batch` either reports a lost claim or a bad adjudication and leaves the ledger exactly as
  -- it was, or it returns how many identities were classified and how many refused and has appended,
  -- after the outcomes that were there, one row for each classified identity, in their order, made
  -- from its outcome.
  pub settle_batch-Answers :
      let classified = classified_of a.outcomes in
      Answers
        (map (λ e. outcome_row repo at hash e.1) classified)
        (length classified)
        (length (refused_of a.unadjudicable))
        l
        (settle_batch message batch a repo at hash now l)
  unfolding settle_batch
  settle_batch-Answers =
      let jobs = jobs_of batch.jobs in
      let classified = classified_of a.outcomes in
      let refused = refused_of a.unadjudicable in
      elim (Bool-cases (accounts_for jobs classified refused)) [
        | inl e ↦ elim (Bool-cases (claims_are_current l batch)) [
          | inl c ↦
              rw (e, c)
                (commit-Answers _ _ _ l _ (
                  then-Leaves (refuse_all jobs now message refused) _ _
                    (λ l' kept. refuse_all-Leaves jobs now message refused l' _ kept) _
                    (settle_all-Leaves jobs now repo at hash classified l _ refl)))
          | inr c ↦ rw (e, c) refl
        ]
        | inr e ↦ rw e refl
      ]

commit-not_value_error :
    (c r : ℕ) (l : Ledger) (written : Option Ledger)
    → (commit {A = ℕ × ℕ} (c, r) l written).0 ≢ value_error
commit-not_value_error c r l none h = ground arith
commit-not_value_error c r l (some l') h = ground arith

accounted-not_value_error :
    (message : DateError → Text) (batch : ClaimedBatch) (a : Adjudication) (repo : String) (at : ℕ)
    (hash : String) (now : ℕ) (l : Ledger)
    → accounts_for (jobs_of batch.jobs) (classified_of a.outcomes) (refused_of a.unadjudicable)
      ≡ true
    → (settle_batch message batch a repo at hash now l).0 ≢ value_error
unfolding settle_batch
accounted-not_value_error message batch a repo at hash now l e =
    elim (Bool-cases (claims_are_current l batch)) [
      | inl c ↦ rw (e, c) (commit-not_value_error _ _ l _)
      | inr c ↦ rw (e, c) (λ h. ground arith)
    ]

-- The adjudication of a batch's own jobs is never refused as a bad one by `settle_batch`: whatever
-- the revert map, the dates that it names and the default branch, every claimed identity is
-- classified or refused, none is both, and no other identity is.
pub settle_batch_accepts :
    (fromisoformat : String → Option DateTime) (revert_map : ℕ → Option Commit)
    (branch : Option String) (message : DateError → Text) (batch : ClaimedBatch) (repo : String)
    (at : ℕ) (hash : String) (now : ℕ) (l : Ledger)
    → let a = adjudicate fromisoformat revert_map branch batch.jobs in
      (settle_batch message batch a repo at hash now l).0 ≢ value_error
settle_batch_accepts fromisoformat revert_map branch message batch repo at hash now l =
    accounted-not_value_error message batch _ repo at hash now l (
      Deals-accounts_for fromisoformat revert_map branch
        (adjudicate-Deals fromisoformat revert_map branch batch.jobs))
