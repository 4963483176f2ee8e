-- ===== src/Ingest.antt =====
-- api/doug/ingest.py: the `review_jobs` queue between a webhook and a review.
--
-- A function here is one transaction on the table, or, as `enqueue`, a sequence of them. Instants
-- are microseconds and come in as arguments, since the database's clock (`_db_now`) gives them. An
-- `UPDATE ... WHERE ... RETURNING` is `update_where` beside a search for the row that it returns.
mod Rows
pub mod Op
pub mod Invariant
pub mod Fencing
pub mod Claims
pub mod Admission
pub mod Cooloff
mod Tests
unfoldable pub use Rows.*
use doug.Prelude.{
  ℕ, suc, ◌+◌, ◌-◌, ◌*◌, ◌/◌, String, Bool, true, false, ◌&&◌, ◌||◌, not, Option, none, some, List,
  [], ◌∷◌, ltb, leb, ◌==◌, nat_eq, string_eq, if◌then◌else◌, take, any, count_if, find?,
  update_where,
}

pub record Queue : Type 0 where
  pub rows : List Job
  pub next_id : ℕ

abbrev pub empty : Queue
empty = record { rows = []; next_id = 1 }

-- What a call of this module returns or raises: `ValueError` from a missing base.
pub data Result {ℓ} (A : Type ℓ) : Type ℓ where
  ok : A → Result A
  value_error : Result A

-- The first transaction of `enqueue`: the insert, and the superseding of older pending heads. A
-- collision on the unique index rolls it back; the sequence that numbers the rows moves on.
unfoldable pub admit : Delivery → ℕ → Queue → Option ℕ × Queue
admit d now q = if any (collides d) q.rows then (none, record q { next_id = suc q.next_id }) else (
  some q.next_id,
  record {
    rows = new_job d now q.next_id ∷ update_where (overtaken d) (supersede_row now) q.rows;
    next_id = suc q.next_id;
  },
)

abbrev pub id_of : Option Job → Option ℕ
id_of none = none
id_of (some j) = some j.id

unfoldable pub revive : Delivery → Trigger → ℕ → Queue → Option ℕ × Queue
revive d trigger now q = (
  id_of (find? (revivable d trigger now) q.rows),
  record q { rows = update_where (revivable d trigger now) (revive_row d now) q.rows },
)

-- The collision branch of `enqueue`, a second transaction.
unfoldable pub or_revive : Delivery → Trigger → ℕ → Option ℕ × Queue → Option ℕ × Queue
unfolding revive
or_revive d trigger now (some id, q) = (some id, q)
or_revive d trigger now (none, q) = revive d trigger now q

unfoldable pub enqueue : Delivery → Trigger → ℕ → ℕ → Queue → Result (Option ℕ) × Queue
unfolding admit or_revive
enqueue d trigger now now' q =
    if d.base_sha == ""
    then (value_error, q)
    else let (id, q') = or_revive d trigger now' (admit d now q) in (ok id, q')

-- `ORDER BY enqueued_at, id`.
abbrev pub before : Job → Job → Bool
before j k = ltb j.enqueued_at k.enqueued_at || j.enqueued_at == k.enqueued_at && leb j.id k.id

abbrev pub first_of_two : Job → Option Job → Job
first_of_two j none = j
first_of_two j (some k) = if before j k then j else k

-- The first row of `SELECT ... WHERE status = 'pending' ORDER BY enqueued_at, id`.
pub oldest_pending : List Job → Option Job
oldest_pending [] = none
oldest_pending (j ∷ js) =
    let rest = oldest_pending js in if is_pending j.status then some (first_of_two j rest) else rest

pub pending_at : ℕ → Job → Bool
pending_at id j = j.id == id && is_pending j.status

-- The update of `claim`, and the row that it hands to the worker.
pub take_row : ℕ → Job → Queue → Option Job × Queue
unfolding pending_at claim_row
take_row now row q = elim (find? (pending_at row.id) q.rows) [
  | none ↦ (none, q)
  | some j ↦ (
    some (record row {
      status = running;
      started_at = some now;
      claim_generation = j.claim_generation + 1;
    }),
    record q { rows = update_where (pending_at row.id) (claim_row now) q.rows },
  )
]

unfoldable pub claim : ℕ → Queue → Option Job × Queue
unfolding oldest_pending take_row
claim now q = elim (oldest_pending q.rows) [ none ↦ (none, q) | some row ↦ take_row now row q ]

unfoldable pub reclaim_stalled : ℕ → ℕ → Queue → ℕ × Queue
reclaim_stalled lease now q = (
  count_if (stalled lease now) q.rows,
  record q { rows = update_where (stalled lease now) (reclaim_row now) q.rows },
)

-- An update behind `_terminal_where`, and whether it applied.
unfoldable pub terminal : ℕ → ℕ → (Job → Job) → Queue → Bool × Queue
terminal id generation write q = (
  any (terminal_where id generation) q.rows,
  record q { rows = update_where (terminal_where id generation) write q.rows },
)

unfoldable pub release : ℕ → ℕ → Queue → Bool × Queue
unfolding terminal
release id generation = terminal id generation release_row

unfoldable pub complete : ℕ → Option ℕ → ℕ → Bool → ℕ → Queue → Bool × Queue
unfolding terminal
complete id verdict_id generation owes_comment now =
    terminal id generation (complete_row verdict_id owes_comment now)

pub supersede : ℕ → ℕ → ℕ → Queue → Bool × Queue
unfolding terminal
supersede id generation now = terminal id generation (supersede_row now)

unfoldable pub fail : ℕ → List ℕ → ℕ → ℕ → ℕ → Queue → Bool × Queue
unfolding terminal
fail id error generation cap now = terminal id generation (fail_row error cap now)

-- Read-only: what a `failed` row still has to wait, in whole seconds, by the caller's clock.
abbrev pub hold_from : ℕ → Option ℕ → Option ℕ
hold_from now none = none
hold_from now (some finished) =
    if ltb now (finished + seconds failed_revive_cooloff_seconds)
    then some ((finished + seconds failed_revive_cooloff_seconds - now) / 1000000)
    else none

abbrev pub hold_of : ℕ → Option Job → Option ℕ
hold_of now none = none
hold_of now (some j) = if is_failed j.status then hold_from now j.finished_at else none

pub cooloff_hold_remaining : Delivery → ℕ → Queue → Option ℕ
cooloff_hold_remaining d now q = hold_of now (find? (collides d) q.rows)
