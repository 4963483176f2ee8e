-- ===== src/Reviews/Retries.antt =====
-- worker.py and store.py: the sweep that posts the comments which never landed.
--
-- What GitHub, the rendering and other processes do for one job is a `Try`. Other processes are other
-- sweeps, and workers that record how a comment ended; the transactions of ingest.py leave a job that
-- is done as it is.
pub mod Spent
pub mod Bounded
mod Tests
use doug.Prelude.{
  ℕ, zero, suc, ◌+◌, String, Bool, true, false, ◌&&◌, ◌||◌, Option, none, some, List, [], ◌∷◌, ◌++◌,
  any, keep, ◌==◌, nat_eq, string_eq, ltb, leb, if◌then◌else◌, take, sort_by, update_where, codes,
  starts_with,
}
use doug.Ingest.{Job, Status, pending, running, done, failed, superseded, seconds, pr_comment_owed}
use doug.Reviews.Rows.{Verdict}
use doug.Reviews.Verdicts.{find_verdict_by_id}

abbrev pub pr_comment_max_retries : ℕ
pr_comment_max_retries = 2

abbrev pub pr_comment_settled_seconds : ℕ
pr_comment_settled_seconds = 900

abbrev pub pr_comment_retry_window_seconds : ℕ
pr_comment_retry_window_seconds = 86400

abbrev pub pr_comment_outcome_max : ℕ
pr_comment_outcome_max = 32

pub unlanded : Option String → Bool
unlanded none = false
unlanded (some outcome) =
    outcome == pr_comment_owed || starts_with (codes "failed:") (codes outcome)

-- The comparisons with `now`, with the subtractions moved across; NULL satisfies neither.
pub settled_within : ℕ → Option ℕ → Bool
settled_within now none = false
settled_within now (some finished) =
    leb (finished + seconds pr_comment_settled_seconds) now
    && leb now (finished + seconds pr_comment_retry_window_seconds)

abbrev pub is_finished : Status → Bool
is_finished done = true
is_finished _ = false

pub is_unposted : ℕ → Job → Bool
is_unposted now j =
    is_finished j.status
    && unlanded j.pr_comment_outcome
    && ltb j.pr_comment_attempts pr_comment_max_retries
    && settled_within now j.finished_at

abbrev pub instant_or_zero : Option ℕ → ℕ
instant_or_zero none = 0
instant_or_zero (some t) = t

-- `ORDER BY finished_at, id`; a selected row has a `finished_at`.
abbrev pub finished_before : Job → Job → Bool
finished_before j k =
    let (s, t) : ℕ × ℕ = (instant_or_zero j.finished_at, instant_or_zero k.finished_at) in
    ltb s t || s == t && leb j.id k.id

pub jobs_with_unposted_pr_comment : ℕ → ℕ → List Job → List Job
jobs_with_unposted_pr_comment limit now rows =
    take limit (sort_by finished_before (keep (is_unposted now) rows))

-- A transaction answers with the rows after it.
abbrev pub is_claimable : ℕ → ℕ → Job → Bool
is_claimable id attempts j =
    j.id == id && j.pr_comment_attempts == attempts && unlanded j.pr_comment_outcome

abbrev pub spend_attempt : ℕ → Job → Job
spend_attempt attempts j = record j { pr_comment_attempts = attempts + 1 }

pub claim_pr_comment_retry : ℕ → ℕ → List Job → List Job × Bool
claim_pr_comment_retry id attempts rows = (
  update_where (is_claimable id attempts) (spend_attempt attempts) rows,
  any (is_claimable id attempts) rows,
)

-- `outcome[:n]`.
pub shorten : ℕ → String → String
shorten zero s = ""
shorten (suc n) String.[] = ""
shorten (suc n) (String.◌∷◌ c s) = String.◌∷◌ c (shorten n s)

pub record_pr_comment_outcome : ℕ → String → List Job → List Job
record_pr_comment_outcome id outcome rows =
    update_where (λ j. j.id == id)
      (λ j. record j { pr_comment_outcome = some (shorten pr_comment_outcome_max outcome) }) rows

-- What other processes commit: a sweep's claim of a job that it read with these attempts, or how a
-- comment ended.
pub data CommentAct : Type 0 where
  claim_act : ℕ → ℕ → CommentAct
  record_act : ℕ → String → CommentAct

-- A comment that a sweep writes for the job with this id: the sweep at hand, or another one, which
-- writes one comment at most once it has won a claim.
pub data Comment : Type 0 where
  own : ℕ → Comment
  rival : ℕ → Comment

abbrev pub won_by_rival : ℕ → Bool → List Comment
won_by_rival id true = rival id ∷ []
won_by_rival id false = []

-- The rows after a transaction, and the comment for which it won a claim.
pub perform_act : CommentAct → List Job → List Job × List Comment
perform_act (claim_act id attempts) rows =
    let claimed = claim_pr_comment_retry id attempts rows in (claimed.0, won_by_rival id claimed.1)
perform_act (record_act id outcome) rows = (record_pr_comment_outcome id outcome rows, [])

pub perform_acts : List CommentAct → List Job → List Job × List Comment
perform_acts [] rows = (rows, [])
perform_acts (act ∷ acts) rows =
    let step = perform_act act rows in
    let rest = perform_acts acts step.0 in (rest.0, step.1 ++ rest.1)

pub record Try : Type 0 where
  pub acts_before : List CommentAct
  pub verdicts : List Verdict
  pub is_looked_up : Bool  -- the lookup of the verdict does not raise
  pub is_claimed : Bool  -- the claim commits or is lost, and does not raise
  pub is_ready : Bool  -- the client and the rendering do not raise
  pub acts_during : List CommentAct
  pub outcome : String  -- of `_pr_comment_outcome`
  pub is_recorded : Bool  -- the transaction that records it commits
  pub is_failure_recorded : Bool  -- so for the one in the handler of an error

abbrev pub record_try : Try → Job → String → List Job → List Job
record_try try job outcome rows =
    if try.is_recorded then record_pr_comment_outcome job.id outcome rows else rows

-- The rows after a step, and the comments.
abbrev pub fail_try : Try → Job → List Job → List Job × List Comment
fail_try try job rows = (
  if try.is_failure_recorded then record_pr_comment_outcome job.id "failed:internal" rows else rows,
  [],
)

abbrev pub post_comment : Try → Job → Bool → List Job → List Job × List Comment
post_comment try job true rows =
    let others = perform_acts try.acts_during rows in
    (record_try try job try.outcome others.0, own job.id ∷ others.1)
post_comment try job false rows = fail_try try job rows

abbrev pub after_reserve : Try → Job → List Job × Bool → List Job × List Comment
after_reserve try job (rows, true) = post_comment try job try.is_ready rows
after_reserve try job (rows, false) = (rows, [])

abbrev pub verdict_of : Option ℕ → List Verdict → Option Verdict
verdict_of none verdicts = none
verdict_of (some id) verdicts = find_verdict_by_id id verdicts

abbrev pub repair_comment : Try → Job → Option Verdict → List Job → List Job × List Comment
repair_comment try job none rows =
    if try.is_recorded
    then (record_pr_comment_outcome job.id "skipped:no-verdict" rows, [])
    else fail_try try job rows
repair_comment try job (some existing) rows =
    if try.is_claimed
    then after_reserve try job (claim_pr_comment_retry job.id job.pr_comment_attempts rows)
    else fail_try try job rows

pub retry_job : Try → Job → List Job → List Job × List Comment
retry_job try job rows =
    let others = perform_acts try.acts_before rows in
    let step =
      if try.is_looked_up
      then repair_comment try job (verdict_of job.verdict_id try.verdicts) others.0
      else fail_try try job others.0 in
    (step.0, others.1 ++ step.1)

-- The loop; the try of a job is found by the job's id.
pub retry_jobs : (ℕ → Try) → List Job → List Job → List Job × List Comment
retry_jobs tries [] rows = (rows, [])
retry_jobs tries (job ∷ jobs) rows =
    let step = retry_job (tries job.id) job rows in
    let rest = retry_jobs tries jobs step.0 in (rest.0, step.1 ++ rest.1)

pub record Sweep : Type 0 where
  pub limit : ℕ
  pub now : ℕ
  pub tries : ℕ → Try

-- `attempted`, what the source returns, is how many `own` comments are listed.
pub retry_unposted_comments : Sweep → List Job → List Job × List Comment
retry_unposted_comments s rows =
    retry_jobs s.tries (jobs_with_unposted_pr_comment s.limit s.now rows) rows

-- Sweeps one after the other, by any processes.
pub run_sweeps : List Sweep → List Job → List Job × List Comment
run_sweeps [] rows = (rows, [])
run_sweeps (s ∷ sweeps) rows =
    let step = retry_unposted_comments s rows in
    let rest = run_sweeps sweeps step.0 in (rest.0, step.1 ++ rest.1)
