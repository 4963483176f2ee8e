-- ===== src/Outcomes/Rows.antt =====
-- The rows that the outcome lane reads and writes: `store.outcome_jobs`, and the classes of
-- api/doug/adjudicate.py and api/doug/backtest/git_labels.py.
use doug.Prelude.{ℕ, ◌*◌, String, Option, List, Text}
use doug.Prelude.Int.{ℤ}

-- A Python `datetime`: microseconds on its own clock, and its offset from UTC, if it carries one.
pub record DateTime : Type 0 where
  pub clock : ℤ
  pub utcoffset : Option ℤ

pub data JobStatus : Type 0 where
  pending running done failed : JobStatus

pub record OutcomeJob : Type 0 where
  pub id : ℕ
  pub installation_id : ℕ
  pub github_repo_id : ℕ
  pub pr_number : ℕ
  pub merge_commit_sha : String
  pub merged_at : DateTime
  pub base_ref : String
  pub window_days : ℕ
  pub due_at : ℕ
  pub status : JobStatus
  pub attempts : ℕ
  pub started_at : Option ℕ
  pub finished_at : Option ℕ
  pub error : Option Text
  pub claim_generation : ℕ
  pub created_at : ℕ
  pub merged_head_sha : Option String

-- The reverting commit; `date` is git's `%cI`.
pub record Commit : Type 0 where
  pub sha : String
  pub date : String

pub data OutcomeKind : Type 0 where
  revert clean censored : OutcomeKind

pub data CensorReason : Type 0 where
  base_ref unreachable : CensorReason

pub record OutcomeDetail : Type 0 where
  pub anchor_sha : String
  pub revert_sha : Option String
  pub revert_instant : Option ℤ
  pub window_starts_at : ℤ
  pub window_ends_at : ℤ
  pub base_ref : String
  pub default_branch : Option String
  pub censor_reason : Option CensorReason

pub record Outcome : Type 0 where
  pub installation_id : ℕ
  pub github_repo_id : ℕ
  pub pr_number : ℕ
  pub window_days : ℕ
  pub merge_commit_sha : String
  pub kind : OutcomeKind
  pub detail : OutcomeDetail

-- The two `ValueError`s of `commit_instant`, with the date that they name.
pub data DateError : Type 0 where
  unparseable : String → DateError
  no_offset : String → DateError

pub record Unadjudicable : Type 0 where
  pub job : OutcomeJob
  pub reason : DateError

pub record Adjudication : Type 0 where
  pub outcomes : List Outcome
  pub unadjudicable : List Unadjudicable

-- `timedelta(days=n)`.
abbrev pub days : ℕ → ℕ
days n = n * 86400000000

abbrev pub tolerance_days : ℕ
tolerance_days = 1
