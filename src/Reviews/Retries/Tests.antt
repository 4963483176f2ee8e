-- ===== src/Reviews/Retries/Tests.antt =====
-- The comment sweep over one job whose comment fails each time, and the bound at it.
use doug.Prelude.{
  ℕ, ◌+◌, ◌*◌, ◌≤◌, ◌≡◌, refl, true, ◌==◌, nat_eq, none, some, List, [], ◌∷◌, count_if, arith,
  starts_with,
}
use doug.Ingest.{Job, done}
use doug.Reviews.Rows.{Verdict, scored, reader}
use doug.Reviews.Retries.{
  Try, Sweep, record_act, claim_act, own, rival, run_sweeps, retry_unposted_comments, retry_jobs,
  retry_job, claim_pr_comment_retry, record_pr_comment_outcome, perform_acts, perform_act, shorten,
  jobs_with_unposted_pr_comment, is_unposted, unlanded, settled_within, pr_comment_max_retries,
}
use doug.Reviews.Retries.Spent.{spent, posts, Capped, IsSelected}
use doug.Reviews.Retries.Bounded.{IsFair, run_sweeps_bounded}

abbrev job : Job
job = record {
  id = 7;
  installation_id = 1;
  github_repo_id = 2;
  repo_full_name = "o/r";
  pr_number = 3;
  base_sha = none;
  head_sha = "abc";
  status = done;
  attempts = 1;
  claim_generation = 1;
  enqueued_at = 0;
  started_at = some 1;
  finished_at = some 2;
  error = none;
  verdict_id = some 5;
  pr_comment_outcome = some "owed";
  pr_comment_attempts = 0;
}

abbrev verdict : Verdict
verdict = record {
  id = 5;
  repo = "o/r";
  pr_number = 3;
  tier = scored reader;
  github_repo_id = some 2;
  installation_id = some 1;
  head_sha = some "abc";
  source = none;
}

abbrev failing : Try
failing = record {
  acts_before = claim_act 7 1 ∷ [];
  verdicts = verdict ∷ [];
  is_looked_up = true;
  is_claimed = true;
  is_ready = true;
  acts_during = record_act 9 "created" ∷ [];
  outcome = "failed:500";
  is_recorded = true;
  is_failure_recorded = true;
}

abbrev sweep : ℕ → Sweep
sweep now = record { limit = 20; now = now; tries = λ id. failing }

abbrev sweeps : List Sweep
sweeps = sweep 900000001 ∷ sweep 900000002 ∷ sweep 900000003 ∷ sweep 900000004 ∷ []

-- The first sweep comes too early, the second writes, the third loses to another process, and the
-- last finds no attempt left.
two_comments : (run_sweeps sweeps (job ∷ [])).1 ≡ own 7 ∷ rival 7 ∷ []
unfolding run_sweeps starts_with retry_unposted_comments retry_jobs jobs_with_unposted_pr_comment
    is_unposted unlanded settled_within retry_job claim_pr_comment_retry perform_acts
    record_pr_comment_outcome perform_act shorten
two_comments = refl

failing-IsFair : IsFair failing
unfolding IsFair IsSelected
failing-IsFair = ((omega arith, tt), (tt, tt))

one-Capped : Capped (job ∷ [])
unfolding Capped
one-Capped = (omega arith, tt)

run_sweeps_bounded_example :
    posts 7 (run_sweeps sweeps (job ∷ [])).1 + spent 7 (job ∷ [])
    ≤ pr_comment_max_retries * count_if (λ j. j.id == 7) (job ∷ [])
run_sweeps_bounded_example =
    let fair : ℕ → IsFair failing = λ id. failing-IsFair in
    run_sweeps_bounded sweeps (job ∷ []) (fair, (fair, (fair, (fair, tt)))) one-Capped 7
