-- ===== src/Outcomes/Queue/Published.antt =====
-- outcome_worker.py: what one transaction of a daily run publishes.
use doug.Prelude.{
  ℕ, ◌+◌, ◌≡◌, refl, ap, sym, String, Option, none, some, List, [], ◌∷◌, map, arith, ◌==◌, nat_eq,
  length, length-append, length-map, count_if, Text, Bool-cases, inl, inr,
}
use mathlib.Core.Path.{subst}
use doug.Outcomes.Rows.{OutcomeJob, Adjudication, DateError}
use doug.Outcomes.Queue.{
  RepositoryKey, ClaimedBatch, OutcomeRow, Ledger, Result, ok, lost_claim, value_error,
  max_attempts,
}
use doug.Outcomes.Queue.Settle.{
  claim_rows, to_claim, fail_job, fail_jobs, claims_are_current, commit, fail_batch, settle_batch,
  outcome_row,
}
use doug.Outcomes.Queue.Balance.{IsBalanced}
use doug.Outcomes.Queue.Trace.{fail_batch-IsBalanced, settle_batch-IsBalanced}
use doug.Outcomes.Queue.Settlement.{
  Leaves, update_one-outcomes, then-Leaves, Answers, settle_batch-Answers,
}
use doug.Outcomes.Queue.Accepts.{classified_of, refused_of}
use doug.Outcomes.Queue.Worker.{DrainSummary, Run, returned, escaped, count_failed, count_settled}

-- From a balanced ledger a run goes to a balanced one, and if it returns, its count of the done jobs
-- has grown by the outcomes that it published.
abbrev pub Counts : DrainSummary → Ledger → Run DrainSummary × Ledger → Type 0
Counts s l (returned s', l') = length l'.outcomes + s.done ≡ length l.outcomes + s'.done
Counts s l (escaped, l') = Unit

abbrev pub Publishes : DrainSummary → Ledger → Run DrainSummary × Ledger → Type 0
Publishes s l r = IsBalanced r.1 × Counts s l r

fail_jobs-Leaves :
    (jobs : List OutcomeJob) (error : Text) (now cap : ℕ) (l : Ledger) (rows : List OutcomeRow)
    → l.outcomes ≡ rows
    → Leaves rows (fail_jobs jobs error now cap l)
unfolding fail_jobs fail_job
fail_jobs-Leaves [] error now cap l rows h = h
fail_jobs-Leaves (job ∷ jobs) error now cap l rows h =
    then-Leaves (fail_jobs jobs error now cap) rows rows
      (λ l' e. fail_jobs-Leaves jobs error now cap l' rows e) _
      (subst (λ r. Leaves r (fail_job job error now cap l)) h (update_one-outcomes job _ l))

commit-outcomes {ℓ} :
    {A : Type ℓ} (a : A) (l : Ledger) (written : Option Ledger)
    → Leaves l.outcomes written
    → (commit a l written).1.outcomes ≡ l.outcomes
commit-outcomes a l none h = refl
commit-outcomes a l (some l') h = h

fail_batch-outcomes :
    (batch : ClaimedBatch) (error : Text) (now cap : ℕ) (l : Ledger)
    → (fail_batch batch error now cap l).1.outcomes ≡ l.outcomes
unfolding fail_batch
fail_batch-outcomes batch error now cap l = elim (Bool-cases (claims_are_current l batch)) [
  | inl e ↦
      rw e (
        commit-outcomes (length batch.jobs) l _
          (fail_jobs-Leaves batch.jobs error now cap l _ refl))
  | inr e ↦ rw e refl
]

pub claim_rows-outcomes :
    (k : RepositoryKey) (now : ℕ) (ids : List ℕ) (l : Ledger)
    → (claim_rows k now ids l).1.outcomes ≡ l.outcomes
unfolding claim_rows
claim_rows-outcomes k now [] l = refl
claim_rows-outcomes k now (i ∷ is) l =
    elim (Bool-cases (count_if (to_claim (i ∷ is)) l.jobs == length (i ∷ is))) [
      | inl e ↦ rw e refl
      | inr e ↦ rw e refl
    ]

count_failed-Counts :
    (s : DrainSummary) (l : Ledger) (r : Result ℕ × Ledger)
    → r.1.outcomes ≡ l.outcomes
    → Counts s l (count_failed s r)
count_failed-Counts s l (ok moved, l') h = ap (λ rows. length rows + s.done) h
count_failed-Counts s l (lost_claim, l') h = tt
count_failed-Counts s l (value_error, l') h = tt

count_failed-ledger : (s : DrainSummary) (r : Result ℕ × Ledger) → (count_failed s r).1 ≡ r.1
count_failed-ledger s (ok moved, l) = refl
count_failed-ledger s (lost_claim, l) = refl
count_failed-ledger s (value_error, l) = refl

count_settled-Counts :
    (s : DrainSummary) (l : Ledger) (rows : List OutcomeRow) (c d : ℕ) (r : Result (ℕ × ℕ) × Ledger)
    → length rows ≡ c
    → Answers rows c d l r
    → Counts s l (count_settled s r)
count_settled-Counts s l rows c d (ok (settled, refused), l') e (a, b, h) =
    omega (arith, ap length h, length-append l.outcomes rows, a, e)
count_settled-Counts s l rows c d (lost_claim, l') e h = tt
count_settled-Counts s l rows c d (value_error, l') e h = tt

count_settled-ledger :
    (s : DrainSummary) (r : Result (ℕ × ℕ) × Ledger) → (count_settled s r).1 ≡ r.1
count_settled-ledger s (ok (settled, refused), l) = refl
count_settled-ledger s (lost_claim, l) = refl
count_settled-ledger s (value_error, l) = refl

pub fail-Publishes :
    (batch : ClaimedBatch) (error : Text) (now : ℕ) (s : DrainSummary) (l : Ledger)
    → IsBalanced l
    → Publishes s l (count_failed s (fail_batch batch error now max_attempts l))
fail-Publishes batch error now s l b = (
  subst IsBalanced (sym (count_failed-ledger s (fail_batch batch error now max_attempts l)))
      (fail_batch-IsBalanced batch error now max_attempts l b),
  count_failed-Counts s l _ (fail_batch-outcomes batch error now max_attempts l),
)

pub settle-Publishes :
    (message : DateError → Text) (batch : ClaimedBatch) (a : Adjudication) (repo : String) (at : ℕ)
    (hash : String) (now : ℕ) (s : DrainSummary) (l : Ledger)
    → IsBalanced l
    → Publishes s l (count_settled s (settle_batch message batch a repo at hash now l))
settle-Publishes message batch a repo at hash now s l b =
    let classified = classified_of a.outcomes in
    let rows = map (λ e. outcome_row repo at hash e.1) classified in
    let r = settle_batch message batch a repo at hash now l in
    (
      subst IsBalanced (sym (count_settled-ledger s r))
          (settle_batch-IsBalanced message batch a repo at hash now l b),
      count_settled-Counts s l rows (length classified) (length (refused_of a.unadjudicable)) r
          (length-map _ classified) (settle_batch-Answers message batch a repo at hash now l),
    )
