-- ===== src/Outcomes/Queue/Op.antt =====
-- outcome_queue.py: its transactions as the steps of a trace. The batches and the adjudications that
-- the workers bring are arbitrary: a holder may be stale, and a batch may be settled twice.
use doug.Prelude.{ℕ, String, List, [], ◌∷◌, Text}
use doug.Outcomes.Rows.{Adjudication, DateError}
use doug.Outcomes.Queue.{RepositoryKey, ClaimedBatch, Ledger, max_attempts}
use doug.Outcomes.Queue.Settle.{claim_repository, reclaim_stalled, fail_batch, settle_batch}

pub data Op : Type 0 where
  claim_op : RepositoryKey → ℕ → Op
  reclaim_op : ℕ → ℕ → Op
  fail_op : ClaimedBatch → Text → ℕ → Op
  settle_op : ClaimedBatch → Adjudication → String → ℕ → String → ℕ → Op

module _ (message : DateError → Text) where
  unfoldable pub apply : Op → Ledger → Ledger
  apply (claim_op k now) l = (claim_repository k now l).1
  apply (reclaim_op lease now) l = (reclaim_stalled lease now l).1
  apply (fail_op batch error now) l = (fail_batch batch error now max_attempts l).1
  apply (settle_op batch a repo at hash now) l = (settle_batch message batch a repo at hash now l).1

  unfoldable pub run : List Op → Ledger → Ledger
  unfolding apply
  run [] l = l
  run (op ∷ ops) l = run ops (apply op l)
