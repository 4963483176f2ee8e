-- ===== src/Reviews/Tests.antt =====
-- Runs of the review worker, and its theorems at concrete passes.
use doug.Prelude.{◌≡◌, refl, arith, here, none, some, [], ◌∷◌, map, codes, ◌+◌, ◌<◌}
use doug.Ingest.{
  Job, Queue, Delivery, empty, claim, complete, pending, done, new_job, claim_row, complete_row,
  terminal_where, revive, reclaim_stalled, fail, fail_row, collides, job_filter, overtaken,
  supersede_row, release, release_row, admit, stalled,
}
use doug.Ingest.Op.{Op, admit_op, claim_op, run, apply}
use doug.Ingest.Invariant.{run-IsValid, empty-IsValid}
use doug.Reviews.{
  Tables, Turn, answered, raises, Scored, queue_act, Verdict, raised, process_job, act_on, perform,
  review_row, identifies, find_verdict_by_identity,
}
use doug.Reviews.Trace.{Traced, stay, by_act}
use doug.Reviews.Valid.{AreValid}
use doug.Reviews.Drain.{Pass, attempt, new_pass, drain}
use doug.Prelude.{Distinct, length}
use doug.Reviews.Pass.{IsSound, drain-IsSound}
use doug.Reviews.Budget.{EndsWith, drain_settles}
use doug.Reviews.Events.{Recorded}
use doug.Reviews.Replay.{BuysNothing, known-BuysNothing}
use doug.Reviews.Refines.{IsCharged, raised-IsCharged}

-- `process_job`, whose line opens everything that a run computes with.
run_open : Op → Queue → Queue
unfolding drain process_job run claim revive reclaim_stalled complete fail release admit collides
    job_filter new_job overtaken supersede_row claim_row complete_row fail_row stalled
    terminal_where identifies perform release_row review_row
run_open = apply

abbrev push : Delivery
push = record {
  installation_id = 1;
  github_repo_id = 7;
  repo_full_name = "acme/app";
  pr_number = 42;
  head_sha = "aaa";
  base_sha = "base";
}

abbrev tables : Tables
tables = record { queue = run (admit_op push 10 ∷ []) empty; verdicts = []; next_verdict = 1 }

abbrev at_the_head : Turn
at_the_head = record {
  before_claim = [];
  claimed_at = 20;
  before_lookup = [];
  client_error = none;
  pull = answered (record { head_sha = some "aaa"; base_repo_id = some 7; base_sha = some "base" });
  during_pull = [];
  retired_at = 30;
  before_replacing = [];
  enqueued_at = 31;
  revived_at = 32;
  reading = answered Scored.reader;
  during_reading = [];
  before_peer_lookup = [];
  rendering_error = none;
  during_rendering = [];
  completed_at = 40;
  before_failing = [];
  failed_at = 50;
}

abbrev no_pull : Turn
no_pull = record at_the_head { pull = raises (codes "503") }

abbrev pass : Turn → Pass
pass turn = drain (λ n. turn) 20 900 15 tables

-- A review of the head: one read, one check run, one comment, and the job done.
reviewed : map (λ j. j.status) (pass at_the_head).tables.queue.rows ≡ done ∷ []
unfolding run_open
reviewed = refl

reviewed_once : (pass at_the_head).attempted ≡ 1
unfolding run_open
reviewed_once = refl

-- A failed call re-pends the job, which ends the pass at the next claim.
refused : map (λ j. j.status) (pass no_pull).tables.queue.rows ≡ pending ∷ []
unfolding run_open
refused = refl

tables-AreValid : AreValid tables
tables-AreValid = record {
  queue_valid = run-IsValid (admit_op push 10 ∷ []) empty empty-IsValid;
  verdicts_below = tt;
  verdicts_distinct = tt;
  one_each = tt;
}

drain-IsSound_example : IsSound (pass at_the_head)
drain-IsSound_example = drain-IsSound (λ n. at_the_head) 20 900 15 tables tables-AreValid

few : (pass at_the_head).attempted < 20
unfolding run_open
few = omega arith

drain_settles_example :
    EndsWith at_the_head (pass at_the_head)
    × Distinct (pass at_the_head).seen
    × (length (pass at_the_head).seen ≡ (pass at_the_head).attempted)
    × (drain (λ n. at_the_head) (20 + 5) 900 15 tables ≡ pass at_the_head)
drain_settles_example = drain_settles (λ n. at_the_head) 20 5 900 15 tables tables-AreValid few

-- The job as the worker claims it, with a verdict that an earlier attempt saved.
abbrev held_job : Job
held_job = claim_row 20 (new_job push 10 1)

abbrev kept : Verdict
kept = review_row held_job Scored.reader 1

abbrev recorded : Tables
recorded = record tables {
  queue = run (admit_op push 10 ∷ claim_op 20 ∷ []) empty;
  verdicts = kept ∷ [];
  next_verdict = 2;
}

kept-Recorded : Recorded recorded held_job 1
unfolding run_open
kept-Recorded = (kept, here, refl, refl)

later : Traced recorded (record recorded { queue = (claim 60 recorded.queue).1 })
unfolding act_on apply
later = by_act (queue_act (claim_op 60)) stay

known-BuysNothing_example :
    BuysNothing
      (process_job at_the_head held_job (record recorded { queue = (claim 60 recorded.queue).1 }))
known-BuysNothing_example =
    known-BuysNothing held_job 1 recorded (record recorded { queue = (claim 60 recorded.queue).1 })
      at_the_head kept-Recorded later

abbrev unread : Tables
unread = record recorded { verdicts = []; next_verdict = 1 }

unread-AreValid : AreValid unread
unread-AreValid = record {
  queue_valid = run-IsValid (admit_op push 10 ∷ claim_op 20 ∷ []) empty empty-IsValid;
  verdicts_below = tt;
  verdicts_distinct = tt;
  one_each = tt;
}

failing : (process_job no_pull held_job unread).ended ≡ raised (codes "503")
unfolding run_open find_verdict_by_identity
failing = refl

raised-IsCharged_example :
    IsCharged no_pull held_job
      (codes "503")
      (process_job no_pull held_job unread)
      (attempt no_pull held_job (new_pass unread)).tables
raised-IsCharged_example =
    raised-IsCharged no_pull held_job (new_pass unread) (codes "503") unread-AreValid failing
