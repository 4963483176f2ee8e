-- ===== src/Ingest/Rows.antt =====
-- The rows of `review_jobs` (store.review_jobs), and the tests and writes on one row.
use doug.Prelude.{
  ℕ, ◌+◌, ◌*◌, String, Bool, true, false, ◌&&◌, ◌||◌, not, Option, none, some, List, ltb, leb, ◌==◌,
  nat_eq, string_eq, if◌then◌else◌, take,
}

pub data Status : Type 0 where
  pending running done failed superseded : Status

pub data Trigger : Type 0 where
  live reconcile : Trigger
  unrecognized : String → Trigger

pub record Job : Type 0 where
  pub id : ℕ
  pub installation_id : ℕ
  pub github_repo_id : ℕ
  pub repo_full_name : String
  pub pr_number : ℕ
  pub base_sha : Option String
  pub head_sha : String
  pub status : Status
  pub attempts : ℕ
  pub claim_generation : ℕ
  pub enqueued_at : ℕ
  pub started_at : Option ℕ
  pub finished_at : Option ℕ
  pub error : Option (List ℕ)  -- code points
  pub verdict_id : Option ℕ
  pub pr_comment_outcome : Option String
  pub pr_comment_attempts : ℕ

-- The arguments of `enqueue` that name the work.
pub record Delivery : Type 0 where
  pub installation_id : ℕ
  pub github_repo_id : ℕ
  pub repo_full_name : String
  pub pr_number : ℕ
  pub head_sha : String
  pub base_sha : String

abbrev pub seconds : ℕ → ℕ
seconds n = n * 1000000

abbrev pub failed_revive_cooloff_seconds : ℕ
failed_revive_cooloff_seconds = 3600

abbrev pub stall_lease_seconds : ℕ
stall_lease_seconds = 900

abbrev pub max_attempts : ℕ
max_attempts = 3

abbrev pub pr_comment_owed : String
pr_comment_owed = "owed"

abbrev pub is_pending : Status → Bool
is_pending pending = true
is_pending _ = false

abbrev pub is_running : Status → Bool
is_running running = true
is_running _ = false

abbrev pub is_failed : Status → Bool
is_failed failed = true
is_failed _ = false

abbrev pub is_superseded : Status → Bool
is_superseded superseded = true
is_superseded _ = false

abbrev pub is_reconcile : Trigger → Bool
is_reconcile reconcile = true
is_reconcile _ = false

-- `job_filter`: the rows of one pull request.
unfoldable pub job_filter : Delivery → Job → Bool
job_filter d j =
    j.installation_id == d.installation_id
    && j.github_repo_id == d.github_repo_id
    && j.pr_number == d.pr_number

-- The rows that collide with a delivery on `uq_review_job`.
unfoldable pub collides : Delivery → Job → Bool
unfolding job_filter
collides d j = job_filter d j && j.head_sha == d.head_sha

unfoldable pub new_job : Delivery → ℕ → ℕ → Job
new_job d now id = record {
  id = id;
  installation_id = d.installation_id;
  github_repo_id = d.github_repo_id;
  repo_full_name = d.repo_full_name;
  pr_number = d.pr_number;
  base_sha = some d.base_sha;
  head_sha = d.head_sha;
  status = pending;
  attempts = 0;
  claim_generation = 0;
  enqueued_at = now;
  started_at = none;
  finished_at = none;
  error = none;
  verdict_id = none;
  pr_comment_outcome = none;
  pr_comment_attempts = 0;
}

-- The `WHERE` of the update that follows the insert.
unfoldable pub overtaken : Delivery → Job → Bool
unfolding job_filter
overtaken d j = job_filter d j && not (j.head_sha == d.head_sha) && is_pending j.status

unfoldable pub supersede_row : ℕ → Job → Job
supersede_row now j = record j { status = superseded; finished_at = some now }

-- `x IS NULL OR x < now - age`.
abbrev pub unset_or_older : Option ℕ → ℕ → ℕ → Bool
unset_or_older none age now = true
unset_or_older (some t) age now = ltb (t + age) now

unfoldable pub revivable : Delivery → Trigger → ℕ → Job → Bool
unfolding collides
revivable d trigger now j =
    collides d j
    && (is_superseded j.status
        || is_failed j.status
          && (if is_reconcile trigger
              then unset_or_older j.finished_at (seconds failed_revive_cooloff_seconds) now
              else true))

unfoldable pub revive_row : Delivery → ℕ → Job → Job
revive_row d now j = record j {
  status = pending;
  attempts = 0;
  error = none;
  enqueued_at = now;
  started_at = none;
  finished_at = none;
  verdict_id = none;
  base_sha = some d.base_sha;
}

unfoldable pub claim_row : ℕ → Job → Job
claim_row now j = record j {
  status = running;
  started_at = some now;
  claim_generation = j.claim_generation + 1;
}

unfoldable pub stalled : ℕ → ℕ → Job → Bool
stalled lease now j = is_running j.status && unset_or_older j.started_at (seconds lease) now

unfoldable pub reclaim_row : ℕ → Job → Job
reclaim_row now j = record j { status = pending; started_at = none; enqueued_at = now }

-- `_terminal_where`: the row, still running under this claim.
unfoldable pub terminal_where : ℕ → ℕ → Job → Bool
terminal_where id generation j =
    j.id == id && is_running j.status && j.claim_generation == generation

unfoldable pub release_row : Job → Job
release_row j = record j { status = pending; started_at = none }

unfoldable pub complete_row : Option ℕ → Bool → ℕ → Job → Job
complete_row verdict_id owes_comment now j = record j {
  status = done;
  verdict_id = verdict_id;
  finished_at = some now;
  error = none;
  pr_comment_outcome = if owes_comment then some pr_comment_owed else j.pr_comment_outcome;
}

unfoldable pub fail_row : List ℕ → ℕ → ℕ → Job → Job
fail_row error cap now j =
    let at_cap = leb cap (j.attempts + 1) in
    record j {
      attempts = j.attempts + 1;
      error = some (take 500 error);
      started_at = none;
      status = if at_cap then failed else pending;
      finished_at = if at_cap then some now else j.finished_at;
      enqueued_at = if at_cap then j.enqueued_at else now;
    }
