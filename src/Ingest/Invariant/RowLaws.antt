-- ===== src/Ingest/Invariant/RowLaws.antt =====
-- ingest.py: the invariant of one row, and that each write on a row keeps it.
use doug.Prelude.{ℕ, ◌≤◌, ◌≡◌, Bool, true, false, Option, none, some, List, arith, leb, not}
use doug.Ingest.{
  Status, pending, running, done, Job, Delivery, max_attempts, is_pending, is_running, is_failed,
  new_job, supersede_row, overtaken, revive_row, claim_row, pending_at, stalled, reclaim_row,
  terminal_where, release_row, complete_row, fail_row,
}

abbrev pub is_set : Option ℕ → Bool
is_set none = false
is_set (some t) = true

abbrev pub is_open : Status → Bool
is_open pending = true
is_open running = true
is_open _ = false

abbrev pub is_done : Status → Bool
is_done done = true
is_done _ = false

abbrev pub is_clear : Option (List ℕ) → Bool
is_clear none = true
is_clear (some e) = false

pub record RowIsValid (j : Job) : Type 0 where
  pub capped : j.attempts ≤ max_attempts
  pub failed_at_cap : is_failed j.status ≡ leb max_attempts j.attempts
  pub finished_iff_closed : is_set j.finished_at ≡ not (is_open j.status)
  pub waiting_unstarted : is_pending j.status ≡ true → is_set j.started_at ≡ false
  pub running_started : is_running j.status ≡ true → is_set j.started_at ≡ true
  pub done_without_error : is_done j.status ≡ true → is_clear j.error ≡ true

pub new_job-RowIsValid : (d : Delivery) (now id : ℕ) → RowIsValid (new_job d now id)
unfolding new_job
new_job-RowIsValid d now id = ground arith

pub supersede_row-RowIsValid :
    (now : ℕ) (j : Job) → RowIsValid j → is_open j.status ≡ true → RowIsValid (supersede_row now j)
unfolding supersede_row
supersede_row-RowIsValid now j v h = ground arith

pub revive_row-RowIsValid :
    (d : Delivery) (now : ℕ) (j : Job) → RowIsValid j → RowIsValid (revive_row d now j)
unfolding revive_row
revive_row-RowIsValid d now j v = ground arith

pub claim_row-RowIsValid :
    (now : ℕ) (j : Job) → RowIsValid j → is_pending j.status ≡ true → RowIsValid (claim_row now j)
unfolding claim_row
claim_row-RowIsValid now j v h = ground arith

pub reclaim_row-RowIsValid :
    (now : ℕ) (j : Job) → RowIsValid j → is_running j.status ≡ true → RowIsValid (reclaim_row now j)
unfolding reclaim_row
reclaim_row-RowIsValid now j v h = ground arith

pub release_row-RowIsValid :
    (j : Job) → RowIsValid j → is_running j.status ≡ true → RowIsValid (release_row j)
unfolding release_row
release_row-RowIsValid j v h = ground arith

pub complete_row-RowIsValid :
    (verdict_id : Option ℕ) (owes : Bool) (now : ℕ) (j : Job)
    → RowIsValid j
    → is_running j.status ≡ true
    → RowIsValid (complete_row verdict_id owes now j)
unfolding complete_row
complete_row-RowIsValid verdict_id owes now j v h = ground arith

pub fail_row-RowIsValid :
    (error : List ℕ) (now : ℕ) (j : Job)
    → RowIsValid j
    → is_running j.status ≡ true
    → RowIsValid (fail_row error max_attempts now j)
unfolding fail_row
fail_row-RowIsValid error now j v h = ground arith

-- The tests of the updates, read back.
pub overtaken→open : (d : Delivery) (j : Job) → overtaken d j ≡ true → is_open j.status ≡ true
unfolding overtaken
overtaken→open d j h = ground arith

pub pending_at→pending : (id : ℕ) (j : Job) → pending_at id j ≡ true → is_pending j.status ≡ true
unfolding pending_at
pending_at→pending id j h = ground arith

pub stalled→running :
    (lease now : ℕ) (j : Job) → stalled lease now j ≡ true → is_running j.status ≡ true
unfolding stalled
stalled→running lease now j h = ground arith

pub terminal_where→running :
    (id generation : ℕ) (j : Job)
    → terminal_where id generation j ≡ true
    → is_running j.status ≡ true
unfolding terminal_where
terminal_where→running id generation j h = ground arith

pub running→open : (j : Job) → is_running j.status ≡ true → is_open j.status ≡ true
running→open j h = ground arith
