-- ===== src/Ingest/Op.antt =====
-- ingest.py: the transactions on `review_jobs` as the steps of a trace. `enqueue` is two of them,
-- so that anything may run between its insert and its revival.
use doug.Prelude.{ℕ, Option, Bool, List, [], ◌∷◌}
use doug.Ingest.{
  Delivery, Trigger, Queue, max_attempts, admit, revive, claim, reclaim_stalled, release, complete,
  supersede, fail,
}

pub data Op : Type 0 where
  admit_op : Delivery → ℕ → Op
  revive_op : Delivery → Trigger → ℕ → Op
  claim_op : ℕ → Op
  reclaim_op : ℕ → ℕ → Op
  release_op : ℕ → ℕ → Op
  complete_op : ℕ → Option ℕ → ℕ → Bool → ℕ → Op
  supersede_op : ℕ → ℕ → ℕ → Op
  fail_op : ℕ → List ℕ → ℕ → ℕ → Op

unfoldable pub apply : Op → Queue → Queue
apply (admit_op d now) q = (admit d now q).1
apply (revive_op d trigger now) q = (revive d trigger now q).1
apply (claim_op now) q = (claim now q).1
apply (reclaim_op lease now) q = (reclaim_stalled lease now q).1
apply (release_op id generation) q = (release id generation q).1
apply (complete_op id verdict_id generation owes now) q =
    (complete id verdict_id generation owes now q).1
apply (supersede_op id generation now) q = (supersede id generation now q).1
apply (fail_op id error generation now) q = (fail id error generation max_attempts now q).1

unfoldable pub run : List Op → Queue → Queue
unfolding apply
run [] q = q
run (op ∷ ops) q = run ops (apply op q)
