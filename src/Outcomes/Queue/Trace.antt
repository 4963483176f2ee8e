-- ===== src/Outcomes/Queue/Trace.antt =====
-- outcome_queue.py: what every trace of its transactions keeps.
use doug.Prelude.{
  ℕ, ◌≡◌, ◌∙◌, sym, String, true, List, [], ◌∷◌, nat_eq, arith, length, Bool-cases, inl, inr, Text,
  count_if_same,
}
use doug.Outcomes.Rows.{OutcomeJob, Unadjudicable, Adjudication, DateError}
use doug.Outcomes.Queue.{ClaimedBatch, Ledger, is_done, max_attempts}
use doug.Outcomes.Queue.Settle.{
  claim_repository, stalled, reclaim_row, reclaim_stalled, claims_are_current, fail_batch,
  settle_batch,
}
use doug.Outcomes.Queue.Dictionaries.{dict_from, accounts_for, identity, outcome_identity}
use doug.Outcomes.Queue.Op.{Op, claim_op, reclaim_op, fail_op, settle_op, apply, run}
use doug.Outcomes.Queue.Balance.{
  IsBalanced, then-IsBalanced, fail_jobs-IsBalanced, commit-IsBalanced, settle_all-IsBalanced,
  refuse_all-IsBalanced, claim_rows-IsBalanced,
}

reclaim_row_done :
    (lease now : ℕ) (j : OutcomeJob)
    → stalled lease now j ≡ true
    → is_done (reclaim_row j).status ≡ is_done j.status
unfolding reclaim_row stalled
reclaim_row_done lease now j h = ground arith

pub reclaim_stalled-IsBalanced :
    (lease now : ℕ) (l : Ledger) → IsBalanced l → IsBalanced (reclaim_stalled lease now l).1
unfolding reclaim_stalled IsBalanced
reclaim_stalled-IsBalanced lease now l b =
    b ∙ sym (count_if_same _ (stalled lease now) reclaim_row (reclaim_row_done lease now) l.jobs)

pub fail_batch-IsBalanced :
    (batch : ClaimedBatch) (error : Text) (now cap : ℕ) (l : Ledger)
    → IsBalanced l
    → IsBalanced (fail_batch batch error now cap l).1
unfolding fail_batch
fail_batch-IsBalanced batch error now cap l b = elim (Bool-cases (claims_are_current l batch)) [
  | inl e ↦ rw e (
      commit-IsBalanced (length batch.jobs) l _ b
        (fail_jobs-IsBalanced batch.jobs error now cap l b))
  | inr e ↦ rw e b
]

module _ (message : DateError → Text) where
  pub settle_batch-IsBalanced :
      (batch : ClaimedBatch) (a : Adjudication) (repo : String) (at : ℕ) (hash : String) (now : ℕ)
      (l : Ledger)
      → IsBalanced l
      → IsBalanced (settle_batch message batch a repo at hash now l).1
  unfolding settle_batch
  settle_batch-IsBalanced batch a repo at hash now l b =
      let jobs = dict_from identity (λ j. j) [] batch.jobs in
      let classified = dict_from outcome_identity (λ o. o) [] a.outcomes in
      let refused = dict_from (λ (u : Unadjudicable). identity u.job) (λ u. u) [] a.unadjudicable in
      elim (Bool-cases (accounts_for jobs classified refused)) [
        | inl e ↦ elim (Bool-cases (claims_are_current l batch)) [
          | inl c ↦
              rw (e, c)
                (commit-IsBalanced _ l _ b (
                  then-IsBalanced _ (refuse_all-IsBalanced jobs now message refused) _
                    (settle_all-IsBalanced jobs now repo at hash classified l b)))
          | inr c ↦ rw (e, c) b
        ]
        | inr e ↦ rw e b
      ]

  apply-IsBalanced : (op : Op) (l : Ledger) → IsBalanced l → IsBalanced (apply message op l)
  unfolding apply claim_repository
  apply-IsBalanced (claim_op k now) l b = claim_rows-IsBalanced k now _ l b
  apply-IsBalanced (reclaim_op lease now) l b = reclaim_stalled-IsBalanced lease now l b
  apply-IsBalanced (fail_op batch error now) l b =
      fail_batch-IsBalanced batch error now max_attempts l b
  apply-IsBalanced (settle_op batch a repo at hash now) l b =
      settle_batch-IsBalanced batch a repo at hash now l b

  -- A ledger with as many outcomes as finished jobs still has as many after any sequence of claims,
  -- lease sweeps, batch failures and settlements, whatever batches and adjudications the workers
  -- bring, stale ones included.
  pub run-IsBalanced : (ops : List Op) (l : Ledger) → IsBalanced l → IsBalanced (run message ops l)
  unfolding run
  run-IsBalanced [] l b = b
  run-IsBalanced (op ∷ ops) l b = run-IsBalanced ops (apply message op l) (apply-IsBalanced op l b)
