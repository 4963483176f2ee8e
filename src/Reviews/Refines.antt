-- ===== src/Reviews/Refines.antt =====
-- worker.py: a pass as a trace of transactions, and an attempt that raises.
use doug.Prelude.{
  ℕ, ◌≡◌, refl, ap, true, false, Option, none, some, Text, update_where_none, All, All-of_any-false,
}
use doug.Ingest.{Job, Queue, max_attempts, claim, release, fail, terminal, terminal_where, fail_row}
use doug.Ingest.Claims.{Charged, fail_charges}
use doug.Ingest.Fencing.Advance.{row_at}
use doug.Reviews.{Tables, Turn, raised, Attempt, perform, process_job}
use doug.Prelude.{◌+◌}
use doug.Reviews.Works.{Works}
use doug.Reviews.Works.Attempt.{Traced-process_job}
use doug.Reviews.Trace.{Traced-perform}
use doug.Reviews.Valid.{AreValid, Traced-AreValid}
use doug.Reviews.Events.{is_paid, Quiet}
use doug.Reviews.Published.{process_job-IsFair}
use doug.Reviews.Drain.{Pass, or_fail, attempt, Step, stop, next}

-- The tables at the claim of a round, and what the claim answers and leaves.
abbrev pub met : Turn → Tables → Tables
met turn t = perform turn.before_claim t

abbrev pub oldest : Turn → Tables → Option Job × Queue
oldest turn t = claim turn.claimed_at (met turn t).queue

-- The rounds of a pass, from the one with this number on: in each the others commit what they do
-- before the claim, then the oldest pending job is claimed, and either there is none, or the job is
-- released, or the worker works on it in that round's turn and the rounds go on.
pub data Rounds (turns : ℕ → Turn) : ℕ → Tables → Tables → Type 0 where
  no_more : {n : ℕ} {t : Tables} → Rounds turns n t t
  none_pending :
      {n : ℕ} {t : Tables}
      → (oldest (turns n) t).0 ≡ none
      → Rounds turns n t (record (met (turns n) t) { queue = (oldest (turns n) t).1 })
  met_again :
      {n : ℕ} {t : Tables} (job : Job)
      → (oldest (turns n) t).0 ≡ some job
      → Rounds turns n t (record (met (turns n) t) {
        queue = (release job.id job.claim_generation (oldest (turns n) t).1).1;
      })
  worked :
      {n : ℕ} {t v w : Tables} (job : Job)
      → (oldest (turns n) t).0 ≡ some job
      → Works (turns n) job (record (met (turns n) t) { queue = (oldest (turns n) t).1 }) v
      → Rounds turns (n + 1) v w
      → Rounds turns n t w

-- What a round leaves, and how the pass goes on from it.
abbrev Follows : (ℕ → Turn) → ℕ → Tables → Step → Type 0
Follows turns n t (stop p) = Rounds turns n t p.tables
Follows turns n t (next p) =
    (p.attempted ≡ n + 1) × ((w : Tables) → Rounds turns (n + 1) p.tables w → Rounds turns n t w)

-- What is left where `fail` does not find the claim.
lost-fail :
    (id : ℕ) (error : Text) (generation now : ℕ) (q : Queue)
    → (fail id error generation max_attempts now q).0 ≡ false
    → (fail id error generation max_attempts now q).1 ≡ q
unfolding fail terminal
lost-fail id error generation now q h =
    rw
      (update_where_none (terminal_where id generation) (fail_row error max_attempts now) q.rows
        (All-of_any-false (terminal_where id generation) q.rows h))
      refl

-- What an attempt that raised comes to: nothing was posted, and its job, if at the handler it is
-- still the worker's, is charged, or else the tables stay as the handler found them.
abbrev pub IsCharged : Turn → Job → Text → Attempt → Tables → Type 0
IsCharged turn job error a t =
    let u = perform turn.before_failing a.tables in
    let failed = fail job.id error job.claim_generation max_attempts turn.failed_at u.queue in
    All (λ e. is_paid e ≡ true) a.events
    × (failed.0 ≡ true
        → (j : Job) × (row_at job.id u.queue ≡ some j)
          × (k : Job) × (row_at job.id t.queue ≡ some k)
          × Charged j turn.failed_at k)
    × (failed.0 ≡ false → t ≡ u)

charged :
    (turn : Turn) (job : Job) (error : Text) (a : Attempt)
    → AreValid a.tables
    → a.ended ≡ raised error
    → Quiet a.ended a.events
    → IsCharged turn job error a (or_fail turn job a.ended a.tables)
charged turn job error a v h quiet =
    let g = job.claim_generation in
    let t = perform turn.before_failing a.tables in
    let now_valid = Traced-AreValid (Traced-perform turn.before_failing a.tables) v in
    (
      rw h at quiet,
      λ held. rw h (fail_charges job.id error g turn.failed_at t.queue now_valid.queue_valid held),
      λ lost. rw h (
          ap (λ (q : Queue). record t { queue = q })
            (lost-fail job.id error g turn.failed_at t.queue lost)),
    )

-- An attempt that raises has posted neither a check run nor a comment; if its claim still holds once
-- others have committed what they do before the handler, the handler leaves the job with one attempt
-- more spent, pending again or, at the cap, failed; and if the claim was lost by then, the handler
-- changes nothing.
pub raised-IsCharged :
    (turn : Turn) (job : Job) (p : Pass) (error : Text)
    → AreValid p.tables
    → (process_job turn job p.tables).ended ≡ raised error
    → IsCharged turn job error (process_job turn job p.tables) (attempt turn job p).tables
unfolding attempt
raised-IsCharged turn job p error v h =
    let a = process_job turn job p.tables in
    charged turn job error a (Traced-AreValid (Traced-process_job turn job p.tables) v) h
      (process_job-IsFair turn job p.tables v).quiet
