-- ===== src/Outcomes/Queue/Tests.antt =====
-- Runs of the outcome lane, and its theorems at concrete ledgers.
use doug.Prelude.{
  here, ℕ, String, ◌≡◌, ◌≢◌, refl, true, false, Option, none, some, List, [], ◌∷◌, map, arith, All,
  length, Text, ◌==◌, nat_eq, string_eq, if◌then◌else◌,
}
use doug.Prelude.Int.{pos}
use doug.Outcomes.Rows.{
  DateTime, OutcomeJob, JobStatus, pending, running, done, Commit, Adjudication, DateError, days,
}
use doug.Outcomes.Adjudicate.{adjudicate}
use doug.Outcomes.Queue.{
  RepositoryKey, ClaimedBatch, Installation, InstallationRepo, Ledger, ok, value_error, covers,
  due_repositories, repository_identity, reader_installation_id,
}
use doug.Outcomes.Queue.Settle.{
  claim_repository, reclaim_stalled, settle_batch, fail_batch, outcome_row, settle_all, refuse_all,
  fail_jobs, finish_row, fail_row, claim_row, update_one, held_by, claims_are_current,
}
use doug.Outcomes.Queue.Op.{Op, claim_op, reclaim_op, settle_op, run}
use doug.Outcomes.Queue.Balance.{IsBalanced, finished}
use doug.Outcomes.Queue.Trace.{run-IsBalanced}
use doug.Outcomes.Queue.Accepts.{classified_of, refused_of}
use doug.Outcomes.Queue.Settlement.{Answers, settle_batch-Answers, settle_batch_accepts}
use doug.Outcomes.Queue.Fencing.{IsShutOut, stale_batch-IsShutOut}
use doug.Outcomes.Queue.Worker.{Run, returned, DrainSummary, Evidence, found, Readings, drain}
use doug.Outcomes.Queue.Summary.{IsSummarised, drain-IsSummarised}
use doug.Outcomes.Queue.Identity.{
  IsKeyed, IsLost, censored-Unreachable, Succeeds, successor-Succeeds,
}

-- The first pull request was reverted on day 110, and the second by a commit with a date that cannot
-- be read.
abbrev reader : String → Option DateTime
reader date =
    if date == "day 110"
    then some (record { clock = pos (days 110); utcoffset = some (pos 0) })
    else none

abbrev reverts : ℕ → Option Commit
reverts pr =
    if pr == 1
    then some (record { sha = "r1"; date = "day 110" })
    else if pr == 2
    then some (record { sha = "r2"; date = "?" })
    else none

abbrev job : ℕ → JobStatus → OutcomeJob
job pr status = record {
  id = pr;
  installation_id = 1;
  github_repo_id = 7;
  pr_number = pr;
  merge_commit_sha = "abc";
  merged_at = record { clock = pos (days 100); utcoffset = none };
  base_ref = "main";
  window_days = 14;
  due_at = pr;
  status = status;
  attempts = 0;
  started_at = none;
  finished_at = none;
  error = none;
  claim_generation = 1;
  created_at = 0;
  merged_head_sha = none;
}

abbrev key : RepositoryKey
key = record { installation_id = 1; github_repo_id = 7 }

abbrev installation : ℕ → String → Installation
installation id state = record { installation_id = id; state = state }

abbrev registration : ℕ → ℕ → String → String → ℕ → InstallationRepo
registration id installation name state at = record {
  id = id;
  installation_id = installation;
  github_repo_id = 7;
  full_name = name;
  state = state;
  updated_at = at;
}

-- Three jobs are due, and the repository is registered once.
abbrev at_home : Ledger
at_home = record {
  jobs = job 1 pending ∷ job 2 pending ∷ job 3 pending ∷ [];
  outcomes = [];
  installations = installation 1 "active" ∷ [];
  repos = registration 1 1 "acme/app" "active" 5 ∷ [];
  verdicts = [];
}

-- The repository has moved from installation 1 to installation 2.
abbrev moved : Ledger
moved = record at_home {
  installations = installation 1 "deleted" ∷ installation 2 "active" ∷ [];
  repos = registration 1 1 "acme/app" "removed" 5 ∷ registration 2 2 "new/app" "active" 9 ∷ [];
}

-- Nobody holds it any more.
abbrev lost : Ledger
lost = record moved { installations = installation 1 "deleted" ∷ installation 2 "suspended" ∷ [] }

abbrev message : DateError → Text
message e = []

run_open : Ledger → Ledger
unfolding claim_repository reclaim_stalled settle_batch fail_batch settle_all refuse_all fail_jobs
    finish_row fail_row claim_row update_one held_by claims_are_current run due_repositories
    repository_identity reader_installation_id adjudicate
run_open l = l

abbrev batch : ClaimedBatch
batch = record {
  key = key;
  repo_full_name = some "acme/app";
  permanently_unreachable = false;
  jobs = claimed 1 ∷ claimed 2 ∷ claimed 3 ∷ [];
  evidence_installation_id = none;
}
  where
    claimed : ℕ → OutcomeJob
    claimed pr = record (job pr running) { started_at = some 50; claim_generation = 2 }

claims_all_due : (claim_repository key 50 at_home).0 ≡ ok (some batch)
unfolding run_open
claims_all_due = refl

nothing_due : (claim_repository key 0 at_home).0 ≡ ok none
unfolding run_open
nothing_due = refl

abbrev verdicts : Adjudication
verdicts = adjudicate reader reverts (some "main") batch.jobs

-- A holder whose batch was reclaimed, and claimed again by another.
abbrev ops : List Op
ops =
    claim_op key 50
    ∷ reclaim_op 7200 7200000051
    ∷ settle_op batch verdicts "acme/app" 60 "hash" 7200000060
    ∷ claim_op key 7200000070
    ∷ settle_op batch verdicts "acme/app" 60 "hash" 7200000080
    ∷ []

-- The old holder publishes nothing.
old_holder_lost :
    let l = run message ops at_home in
    length l.outcomes ∷ finished l ∷ map (λ j. j.claim_generation) l.jobs ≡ 0 ∷ 0 ∷ 3 ∷ 3 ∷ 3 ∷ []
unfolding run_open
old_holder_lost = refl

abbrev settled : Ledger
settled =
    run message (claim_op key 50 ∷ settle_op batch verdicts "acme/app" 60 "hash" 70 ∷ []) at_home

two_published : length settled.outcomes ≡ 2
unfolding run_open
two_published = refl

two_finished : map (λ j. j.status) settled.jobs ≡ done ∷ pending ∷ done ∷ []
unfolding run_open
two_finished = refl

at_home-IsBalanced : IsBalanced at_home
unfolding IsBalanced
at_home-IsBalanced = refl

run-IsBalanced_example : IsBalanced settled
run-IsBalanced_example = run-IsBalanced message _ at_home at_home-IsBalanced

abbrev claimed_home : Ledger
claimed_home = record at_home { jobs = batch.jobs }

settle_batch-Answers_example :
    let rows = map (λ e. outcome_row "acme/app" 60 "hash" e.1) (classified_of verdicts.outcomes) in
    Answers rows
      (length (classified_of verdicts.outcomes))
      (length (refused_of verdicts.unadjudicable))
      claimed_home
      (settle_batch message batch verdicts "acme/app" 60 "hash" 70 claimed_home)
settle_batch-Answers_example =
    settle_batch-Answers message batch verdicts "acme/app" 60 "hash" 70 claimed_home

settle_batch_accepts_example :
    (settle_batch message batch verdicts "acme/app" 60 "hash" 70 claimed_home).0 ≢ value_error
settle_batch_accepts_example =
    settle_batch_accepts reader reverts (some "main") message batch "acme/app" 60 "hash" 70
      claimed_home

moved_identity :
    repository_identity moved key
    ≡ record { name = some "new/app"; permanent = false; successor = some 2 }
unfolding run_open covers
moved_identity = refl

lost_identity :
    repository_identity lost key
    ≡ record { name = some "acme/app"; permanent = true; successor = none }
unfolding run_open covers
lost_identity = refl

successor-Succeeds_example : Succeeds moved key 2 (repository_identity moved key)
unfolding run_open covers
successor-Succeeds_example = successor-Succeeds moved key 2 refl

lost-IsKeyed : IsKeyed lost
lost-IsKeyed = record {
  installations_distinct = (((λ h. ground arith), tt), (tt, tt));
  repos_distinct = (((λ h. ground arith), tt), (tt, tt));
}

censored-Unreachable_example : IsLost lost key × All (λ r. covers lost 7 r ≡ false) lost.repos
unfolding run_open covers
censored-Unreachable_example = censored-Unreachable lost key lost-IsKeyed refl

-- The old holder's batch, once its jobs were claimed again.
abbrev reclaimed : Ledger
reclaimed =
    run message (claim_op key 50 ∷ reclaim_op 7200 7200000051 ∷ claim_op key 7200000070 ∷ [])
      at_home

stale_batch-IsShutOut_example :
    IsShutOut message batch (run message (claim_op key 90 ∷ []) reclaimed)
unfolding run_open
stale_batch-IsShutOut_example =
    stale_batch-IsShutOut message (claim_op key 90 ∷ []) reclaimed batch _ _
      (((λ h. ground arith), ((λ h. ground arith), tt)), (((λ h. ground arith), tt), (tt, tt))) here
      here refl (omega arith)

abbrev gathered : ClaimedBatch → Evidence
gathered b = found reverts (some "main")

abbrev clock : RepositoryKey → Readings
clock k = record { claimed_at = 50; written_at = 70; observed_at = 60 }

abbrev daily : Run DrainSummary × Ledger
daily = drain reader message gathered clock "hash" true 40 50 at_home

two_done :
    daily.0
    ≡ returned
        (record { repositories = 1; done = 2; retried = 1; failed_repositories = 0; reclaimed = 0 })
unfolding run_open drain
two_done = refl

drain-IsSummarised_example : IsBalanced daily.1 × IsSummarised at_home daily
drain-IsSummarised_example =
    drain-IsSummarised reader message gathered clock "hash" true 40 50 at_home at_home-IsBalanced
