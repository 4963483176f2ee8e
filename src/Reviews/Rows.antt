-- ===== src/Reviews/Rows.antt =====
-- worker.py and store.py: the tables that a review attempt reads and writes, and what it meets.
use doug.Prelude.{ℕ, String, Bool, true, false, Option, List, Text}
use doug.Ingest.{Job, Queue}
use doug.Ingest.Op.{Op}

-- The tiers of a score (review.score_one), and of a row of `verdicts`.
pub data Scored : Type 0 where
  reader deterministic : Scored

pub data Tier : Type 0 where
  scored : Scored → Tier
  external : Tier

abbrev pub is_external : Tier → Bool
is_external external = true
is_external (scored s) = false

-- The columns of `store.verdicts` by which the worker finds a row; NULL where a row is not the App's.
pub record Verdict : Type 0 where
  pub id : ℕ
  pub repo : String
  pub pr_number : ℕ
  pub tier : Tier
  pub github_repo_id : Option ℕ
  pub installation_id : Option ℕ
  pub head_sha : Option String
  pub source : Option String

pub record Tables : Type 0 where
  pub queue : Queue
  pub verdicts : List Verdict
  pub next_verdict : ℕ

-- What other processes commit: a transaction of the queue, a review of another worker, or the
-- stance of a person (`save_external_review`).
pub data Act : Type 0 where
  queue_act : Op → Act
  review_act : Job → Scored → Act
  stance_act : Verdict → Act

-- A call that answers or raises; an error is its text.
pub data Answer {ℓ} (A : Type ℓ) : Type ℓ where
  answered : A → Answer A
  raises : Text → Answer A

-- The attributes of a pull request, `none` where one is missing or of another type.
pub record Pull : Type 0 where
  pub head_sha : Option String
  pub base_repo_id : Option ℕ
  pub base_sha : Option String

pub record Turn : Type 0 where
  pub before_claim : List Act
  pub claimed_at : ℕ
  pub before_lookup : List Act
  pub client_error : Option Text  -- of the installation's GitHub client
  pub pull : Answer Pull
  pub during_pull : List Act
  pub retired_at : ℕ
  pub before_replacing : List Act
  pub enqueued_at : ℕ
  pub revived_at : ℕ
  pub reading : Answer Scored  -- the paid read: its tier
  pub during_reading : List Act
  pub before_peer_lookup : List Act
  pub rendering_error : Option Text  -- of the check run's text
  pub during_rendering : List Act
  pub completed_at : ℕ
  pub before_failing : List Act
  pub failed_at : ℕ

-- What an attempt does outside the database. A paid read is logged when it is begun.
pub data Event : Type 0 where
  paid_read : Job → Event
  check_run : Job → ℕ → Event
  comment : Job → Bool → Event

pub data Ended : Type 0 where
  returned : Option ℕ → Ended
  raised : Text → Ended

pub record Attempt : Type 0 where
  pub ended : Ended
  pub events : List Event
  pub tables : Tables
