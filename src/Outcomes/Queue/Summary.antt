-- ===== src/Outcomes/Queue/Summary.antt =====
-- outcome_worker.py: what a daily run publishes, and what its summary says of it.
use doug.Prelude.{
  ℕ, ◌+◌, ◌≡◌, refl, ap, String, Bool, true, false, Option, none, some, List, [], ◌∷◌, arith,
  nat_eq, length, Text,
}
use doug.Outcomes.Rows.{DateTime, DateError}
use doug.Outcomes.Queue.{
  RepositoryKey, ClaimedBatch, Ledger, Result, ok, lost_claim, value_error, stall_lease_seconds,
}
use doug.Outcomes.Queue.Settle.{claim_repository, reclaim_stalled}
use doug.Outcomes.Queue.Balance.{IsBalanced, claim_rows-IsBalanced}
use doug.Outcomes.Queue.Trace.{reclaim_stalled-IsBalanced}
use doug.Outcomes.Queue.Worker.{
  DrainSummary, Evidence, found, unavailable, stops, Run, returned, escaped, Readings,
  drain_evidence, drain_named, drain_claimed, drain_key, then_drain, drain_keys, started, drain_due,
  drain,
}
use doug.Outcomes.Queue.Published.{
  Counts, Publishes, claim_rows-outcomes, fail-Publishes, settle-Publishes,
}

-- Outcomes may be counted from any ledger that has as many, and over two parts of a run.
from-Publishes :
    (s : DrainSummary) (l l' : Ledger) (r : Run DrainSummary × Ledger)
    → l'.outcomes ≡ l.outcomes
    → Publishes s l' r
    → Publishes s l r
from-Publishes s l l' (returned t, m) h p = (p.0, omega (arith, ap length h, p.1))
from-Publishes s l l' (escaped, m) h p = (p.0, tt)

two-Publish :
    (s t : DrainSummary) (l l' : Ledger) (r : Run DrainSummary × Ledger)
    → length l'.outcomes + s.done ≡ length l.outcomes + t.done
    → Publishes t l' r
    → Publishes s l r
two-Publish s t l l' (returned v, m) h p = (p.0, omega (arith, h, p.1))
two-Publish s t l l' (escaped, m) h p = (p.0, tt)

-- One part of a run after another.
then-Publishes :
    (f : DrainSummary → Ledger → Run DrainSummary × Ledger)
    → ((s : DrainSummary) (l : Ledger) → IsBalanced l → Publishes s l (f s l))
    → (s : DrainSummary) (l : Ledger) (r : Run DrainSummary × Ledger) → Publishes s l r
    → Publishes s l (then_drain f r)
then-Publishes f publishes s l (returned t, m) p = two-Publish s t l m _ p.1 (publishes t m p.0)
then-Publishes f publishes s l (escaped, m) p = p

module _ (fromisoformat : String → Option DateTime) (message : DateError → Text)
    (evidence : ClaimedBatch → Evidence) (clock : RepositoryKey → Readings) (hash : String) where
  evidence-Publishes :
      (at : Readings) (name : String) (batch : ClaimedBatch) (e : Evidence) (s : DrainSummary)
      (l : Ledger)
      → IsBalanced l
      → Publishes s l (drain_evidence fromisoformat message evidence clock hash at name batch e s l)
  unfolding drain_evidence
  evidence-Publishes at name batch stops s l b = (b, tt)
  evidence-Publishes at name batch (unavailable error) s l b =
      fail-Publishes batch error at.written_at s l b
  evidence-Publishes at name batch (found revert_map branch) s l b =
      settle-Publishes message batch _ name at.observed_at hash at.written_at s l b

  named-Publishes :
      (at : Readings) (batch : ClaimedBatch) (name : Option String) (s : DrainSummary) (l : Ledger)
      → IsBalanced l
      → Publishes s l (drain_named fromisoformat message evidence clock hash at batch name s l)
  unfolding drain_named
  named-Publishes at batch none s l b = fail-Publishes batch _ at.written_at s l b
  named-Publishes at batch (some name) s l b = evidence-Publishes at name batch _ s l b

  -- A claim publishes nothing, so that the outcomes before it may be counted from.
  claimed-Publishes :
      (at : Readings) (s : DrainSummary) (l : Ledger) (r : Result (Option ClaimedBatch) × Ledger)
      → r.1.outcomes ≡ l.outcomes
      → IsBalanced r.1
      → Publishes s l (drain_claimed fromisoformat message evidence clock hash at s r)
  unfolding drain_claimed
  claimed-Publishes at s l (ok none, l') h b = (b, ap (λ rows. length rows + s.done) h)
  claimed-Publishes at s l (lost_claim, l') h b = (b, tt)
  claimed-Publishes at s l (value_error, l') h b = (b, tt)
  claimed-Publishes at s l (ok (some batch), l') h b =
      let counted = record s { repositories = s.repositories + 1 } in
      from-Publishes counted l l' _ h (named-Publishes at batch batch.repo_full_name counted l' b)

  key-Publishes :
      (k : RepositoryKey) (s : DrainSummary) (l : Ledger)
      → IsBalanced l
      → Publishes s l (drain_key fromisoformat message evidence clock hash k s l)
  unfolding drain_key claim_repository
  key-Publishes k s l b =
      claimed-Publishes (clock k) s l _ (claim_rows-outcomes k (clock k).claimed_at _ l)
        (claim_rows-IsBalanced k (clock k).claimed_at _ l b)

  keys-Publishes :
      (ks : List RepositoryKey) (s : DrainSummary) (l : Ledger)
      → IsBalanced l
      → Publishes s l (drain_keys fromisoformat message evidence clock hash ks s l)
  unfolding drain_keys
  keys-Publishes [] s l b = (b, refl)
  keys-Publishes (k ∷ ks) s l b =
      then-Publishes (drain_keys fromisoformat message evidence clock hash ks) (keys-Publishes ks) s
        l (drain_key fromisoformat message evidence clock hash k s l) (key-Publishes k s l b)

  due-Publishes :
      (configured : Bool) (reclaimed : ℕ) (ks : List RepositoryKey) (l : Ledger)
      → IsBalanced l
      → Publishes
          (started reclaimed)
          l
          (drain_due fromisoformat message evidence clock hash configured reclaimed ks l)
  due-Publishes configured reclaimed [] l b = (b, refl)
  due-Publishes true reclaimed (k ∷ ks) l b = keys-Publishes (k ∷ ks) _ l b
  due-Publishes false reclaimed (k ∷ ks) l b = (b, tt)

-- What a run did to the outcomes, by the summary that it returned.
abbrev pub IsSummarised : Ledger → Run DrainSummary × Ledger → Type 0
IsSummarised l (returned s, l') = length l'.outcomes ≡ length l.outcomes + s.done
IsSummarised l (escaped, l') = Unit

Counts→IsSummarised :
    (s : DrainSummary) (l : Ledger) (r : Run DrainSummary × Ledger)
    → s.done ≡ 0
    → Counts s l r
    → IsSummarised l r
Counts→IsSummarised s l (returned t, l') z h = omega (arith, z, h)
Counts→IsSummarised s l (escaped, l') z h = tt

-- A daily run that starts from a ledger with as many outcomes as finished jobs ends in one, also
-- where an error escapes it; and if it returns, the `done` of its summary is the number of outcomes
-- that it published: whatever evidence the repositories give.
pub drain-IsSummarised :
    (fromisoformat : String → Option DateTime) (message : DateError → Text)
    (evidence : ClaimedBatch → Evidence) (clock : RepositoryKey → Readings) (hash : String)
    (configured : Bool) (swept_at now : ℕ) (l : Ledger)
    → IsBalanced l
    → let r = drain fromisoformat message evidence clock hash configured swept_at now l in
      IsBalanced r.1 × IsSummarised l r
unfolding drain reclaim_stalled
drain-IsSummarised fromisoformat message evidence clock hash configured swept_at now l b =
    let (reclaimed, swept) = reclaim_stalled stall_lease_seconds swept_at l in
    let start = started reclaimed in
    let r = drain fromisoformat message evidence clock hash configured swept_at now l in
    let published : Publishes start swept r =
      due-Publishes fromisoformat message evidence clock hash configured reclaimed _ swept
        (reclaim_stalled-IsBalanced stall_lease_seconds swept_at l b) in
    let counted = from-Publishes start l swept r refl published in
    (counted.0, Counts→IsSummarised start l r refl counted.1)
