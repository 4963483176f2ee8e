-- ===== src/Outcomes/Queue/Worker.antt =====
-- api/doug/outcome_worker.py: the daily run over the repositories with due work.
use doug.Prelude.{
  ℕ, ◌+◌, String, Bool, Option, none, some, List, [], ◌∷◌, if◌then◌else◌, Text, codes,
}
use doug.Outcomes.Rows.{DateTime, Commit, DateError}
use doug.Outcomes.Adjudicate.{adjudicate}
use doug.Outcomes.Queue.{
  RepositoryKey, ClaimedBatch, Ledger, Result, ok, lost_claim, value_error, max_attempts,
  stall_lease_seconds, due_repositories,
}
use doug.Outcomes.Queue.Settle.{claim_repository, reclaim_stalled, fail_batch, settle_batch}

pub record DrainSummary : Type 0 where
  pub repositories : ℕ
  pub done : ℕ
  pub retried : ℕ
  pub failed_repositories : ℕ
  pub reclaimed : ℕ

-- `_repository_evidence`: the attributed reverts and the default branch, or the error that the ledger
-- is told of. Errors of another kind stop the run.
pub data Evidence : Type 0 where
  found : (ℕ → Option Commit) → Option String → Evidence
  unavailable : Text → Evidence
  stops : Evidence

-- How a run ends: it returns, or an error escapes it.
pub data Run (A : Type 0) : Type 0 where
  returned : A → Run A
  escaped : Run A

-- The database clock at the claim and at the write, and the worker's own at the settlement.
pub record Readings : Type 0 where
  pub claimed_at : ℕ
  pub written_at : ℕ
  pub observed_at : ℕ

abbrev pub count_failed : DrainSummary → Result ℕ × Ledger → Run DrainSummary × Ledger
count_failed s (ok moved, l) = (
  returned
      (record s { retried = s.retried + moved; failed_repositories = s.failed_repositories + 1 }),
  l,
)
count_failed s (lost_claim, l) = (escaped, l)
count_failed s (value_error, l) = (escaped, l)

abbrev pub count_settled : DrainSummary → Result (ℕ × ℕ) × Ledger → Run DrainSummary × Ledger
count_settled s (ok (settled, refused), l) =
    (returned (record s { done = s.done + settled; retried = s.retried + refused }), l)
count_settled s (lost_claim, l) = (escaped, l)
count_settled s (value_error, l) = (escaped, l)

abbrev pub then_drain :
    (DrainSummary → Ledger → Run DrainSummary × Ledger)
    → Run DrainSummary × Ledger
    → Run DrainSummary × Ledger
then_drain f (returned s, l) = f s l
then_drain f (escaped, l) = (escaped, l)

abbrev pub started : ℕ → DrainSummary
started reclaimed = record {
  repositories = 0;
  done = 0;
  retried = 0;
  failed_repositories = 0;
  reclaimed = reclaimed;
}

module _ (fromisoformat : String → Option DateTime) (message : DateError → Text)
    (evidence : ClaimedBatch → Evidence) (clock : RepositoryKey → Readings)
    (prereg_hash : String) where
  -- What is done with the evidence of a batch that has a name.
  unfoldable pub drain_evidence :
      Readings
      → String
      → ClaimedBatch
      → Evidence
      → DrainSummary
      → Ledger
      → Run DrainSummary × Ledger
  drain_evidence at name batch stops s l = (escaped, l)
  drain_evidence at name batch (unavailable error) s l =
      count_failed s (fail_batch batch error at.written_at max_attempts l)
  drain_evidence at name batch (found revert_map branch) s l = count_settled s (
      settle_batch message batch (adjudicate fromisoformat revert_map branch batch.jobs) name
        at.observed_at prereg_hash at.written_at l)

  unfoldable pub drain_named :
      Readings → ClaimedBatch → Option String → DrainSummary → Ledger → Run DrainSummary × Ledger
  unfolding drain_evidence
  drain_named at batch none s l =
      count_failed s
        (fail_batch batch (codes "repository identity unavailable") at.written_at max_attempts l)
  drain_named at batch (some name) s l =
      drain_evidence at name batch
        (if batch.permanently_unreachable then found (λ pr. none) none else evidence batch) s l

  -- One repository, after its claim.
  unfoldable pub drain_claimed :
      Readings → DrainSummary → Result (Option ClaimedBatch) × Ledger → Run DrainSummary × Ledger
  unfolding drain_named
  drain_claimed at s (ok none, l) = (returned s, l)
  drain_claimed at s (ok (some batch), l) =
      drain_named at batch batch.repo_full_name (record s { repositories = s.repositories + 1 }) l
  drain_claimed at s (lost_claim, l) = (escaped, l)
  drain_claimed at s (value_error, l) = (escaped, l)

  unfoldable pub drain_key : RepositoryKey → DrainSummary → Ledger → Run DrainSummary × Ledger
  unfolding drain_claimed
  drain_key k s l = drain_claimed (clock k) s (claim_repository k (clock k).claimed_at l)

  unfoldable pub drain_keys : List RepositoryKey → DrainSummary → Ledger → Run DrainSummary × Ledger
  unfolding drain_key
  drain_keys [] s l = (returned s, l)
  drain_keys (k ∷ ks) s l = then_drain (drain_keys ks) (drain_key k s l)

  abbrev pub drain_due : Bool → ℕ → List RepositoryKey → Ledger → Run DrainSummary × Ledger
  drain_due configured reclaimed [] l = (returned (started reclaimed), l)
  drain_due configured reclaimed (k ∷ ks) l =
      if configured then drain_keys (k ∷ ks) (started reclaimed) l else (escaped, l)

  -- `drain`: `configured` is whether the hash is a SHA-256 and the GitHub App is set up.
  unfoldable pub drain : Bool → ℕ → ℕ → Ledger → Run DrainSummary × Ledger
  unfolding drain_keys
  drain configured swept_at now l =
      let (reclaimed, swept) = reclaim_stalled stall_lease_seconds swept_at l in
      drain_due configured reclaimed (due_repositories now swept) swept
