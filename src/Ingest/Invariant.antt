-- ===== src/Ingest/Invariant.antt =====
-- ingest.py: what holds of the table between two transactions, whatever workers, webhooks and
-- sweeps interleave on it.
pub mod RowLaws
use doug.Prelude.{
  ℕ, suc, ◌+◌, ◌≤◌, ◌<◌, String, ◌≡◌, refl, ap, ◌≢◌, Bool, true, false, Option, none, some, List,
  [], ◌∷◌, map, arith, All, All-map, All-map_at, All-of_any-false, All-update_where,
  map-update_where, Distinct, update_where, any, find?, Bool-cases, Option-cases, inl, inr,
  string_eq,
}
use doug.Ingest.Op.{
  Op, admit_op, revive_op, claim_op, reclaim_op, release_op, complete_op, supersede_op, fail_op,
  apply, run,
}
use doug.Ingest.{
  Job, Delivery, Queue, Trigger, empty, collides, new_job, overtaken, supersede_row, revivable,
  revive_row, claim_row, pending_at, stalled, reclaim_row, terminal_where, release_row,
  complete_row, fail_row, max_attempts, terminal, admit, revive, claim, oldest_pending, take_row,
  reclaim_stalled, release, complete, supersede, fail,
}
use RowLaws.{
  RowIsValid, new_job-RowIsValid, supersede_row-RowIsValid, revive_row-RowIsValid,
  claim_row-RowIsValid, reclaim_row-RowIsValid, release_row-RowIsValid, complete_row-RowIsValid,
  fail_row-RowIsValid, overtaken→open, pending_at→pending, stalled→running, terminal_where→running,
  running→open,
}

-- The columns of `uq_review_job`.
abbrev pub key : Job → ℕ × ℕ × ℕ × String
key j = (j.installation_id, j.github_repo_id, j.pr_number, j.head_sha)

pub record IsValid (q : Queue) : Type 0 where
  pub rows_valid : All RowIsValid q.rows
  pub ids_below : All (λ j. j.id < q.next_id) q.rows
  pub ids_distinct : Distinct (map (λ j. j.id) q.rows)
  pub keys_distinct : Distinct (map key q.rows)

-- A write on a row that leaves its identity alone.
pub record KeepsIdentity (f : Job → Job) : Type 0 where
  pub same_id : (j : Job) → (f j).id ≡ j.id
  pub same_key : (j : Job) → key (f j) ≡ key j

update-IsValid :
    (p : Job → Bool) (f : Job → Job) (q : Queue)
    → KeepsIdentity f
    → ((j : Job) → RowIsValid j → p j ≡ true → RowIsValid (f j))
    → IsValid q
    → IsValid (record q { rows = update_where p f q.rows })
update-IsValid p f q same keeps v = record {
  rows_valid = All-update_where RowIsValid p f keeps q.rows v.rows_valid;
  ids_below =
      All-update_where (λ j. j.id < q.next_id) p f (λ j h _. rw (same.same_id j) h) q.rows
        v.ids_below;
  ids_distinct = rw (map-update_where (λ j. j.id) p f same.same_id q.rows) v.ids_distinct;
  keys_distinct = rw (map-update_where key p f same.same_key q.rows) v.keys_distinct;
}

pub supersede_row-KeepsIdentity : (now : ℕ) → KeepsIdentity (supersede_row now)
unfolding supersede_row
supersede_row-KeepsIdentity now = record { same_id = λ j. refl; same_key = λ j. refl }

pub revive_row-KeepsIdentity : (d : Delivery) (now : ℕ) → KeepsIdentity (revive_row d now)
unfolding revive_row
revive_row-KeepsIdentity d now = record { same_id = λ j. refl; same_key = λ j. refl }

pub claim_row-KeepsIdentity : (now : ℕ) → KeepsIdentity (claim_row now)
unfolding claim_row
claim_row-KeepsIdentity now = record { same_id = λ j. refl; same_key = λ j. refl }

pub reclaim_row-KeepsIdentity : (now : ℕ) → KeepsIdentity (reclaim_row now)
unfolding reclaim_row
reclaim_row-KeepsIdentity now = record { same_id = λ j. refl; same_key = λ j. refl }

pub release_row-KeepsIdentity : KeepsIdentity release_row
unfolding release_row
release_row-KeepsIdentity = record { same_id = λ j. refl; same_key = λ j. refl }

pub complete_row-KeepsIdentity :
    (v : Option ℕ) (owes : Bool) (now : ℕ) → KeepsIdentity (complete_row v owes now)
unfolding complete_row
complete_row-KeepsIdentity v owes now = record { same_id = λ j. refl; same_key = λ j. refl }

pub fail_row-KeepsIdentity : (error : List ℕ) (cap now : ℕ) → KeepsIdentity (fail_row error cap now)
unfolding fail_row
fail_row-KeepsIdentity error cap now = record { same_id = λ j. refl; same_key = λ j. refl }

-- A row that does not collide with a delivery has another key.
key-ne-new_job :
    (d : Delivery) (now id : ℕ) (j : Job) → collides d j ≡ false → key (new_job d now id) ≢ key j
unfolding collides new_job
key-ne-new_job d now id j h e =
    let e0 = ap (λ (t : ℕ × ℕ × ℕ × String). t.0) e in
    let e1 = ap (λ (t : ℕ × ℕ × ℕ × String). t.1) e in
    let e2 = ap (λ (t : ℕ × ℕ × ℕ × String). t.2) e in
    let e3 = ap (λ (t : ℕ × ℕ × ℕ × String). t.3) e in
    ground (arith, string_eq.same_iff j.head_sha d.head_sha)

insert-IsValid :
    (d : Delivery) (now : ℕ) (q : Queue)
    → any (collides d) q.rows ≡ false
    → IsValid q
    → IsValid (record {
      rows = new_job d now q.next_id ∷ update_where (overtaken d) (supersede_row now) q.rows;
      next_id = suc q.next_id;
    })
unfolding new_job
insert-IsValid d now q fresh v =
    let same = supersede_row-KeepsIdentity now in
    let w =
      update-IsValid (overtaken d) (supersede_row now) q same
        (λ j r h. supersede_row-RowIsValid now j r (overtaken→open d j h)) v in
    record {
      rows_valid = (new_job-RowIsValid d now q.next_id, w.rows_valid);
      ids_below = (omega arith, All-map_at (λ j h. omega arith) _ w.ids_below);
      ids_distinct =
          (All-map _ (λ j. j.id) _ (All-map_at (λ j h. omega arith) _ w.ids_below), w.ids_distinct);
      keys_distinct = (
        rw (map-update_where key (overtaken d) (supersede_row now) same.same_key q.rows) (
            All-map _ key q.rows
              (All-map_at (key-ne-new_job d now q.next_id) q.rows (All-of_any-false _ _ fresh))),
        w.keys_distinct,
      );
    }

-- The sequence may skip numbers.
pub skip-IsValid : (q : Queue) → IsValid q → IsValid (record q { next_id = suc q.next_id })
skip-IsValid q v = record {
  rows_valid = v.rows_valid;
  ids_below = All-map_at (λ j h. omega arith) q.rows v.ids_below;
  ids_distinct = v.ids_distinct;
  keys_distinct = v.keys_distinct;
}

admit-IsValid : (d : Delivery) (now : ℕ) (q : Queue) → IsValid q → IsValid (admit d now q).1
unfolding admit
admit-IsValid d now q v = elim (Bool-cases (any (collides d) q.rows)) [
  | inl e ↦ rw e (skip-IsValid q v)
  | inr e ↦ rw e (insert-IsValid d now q e v)
]

take_row-IsValid : (now : ℕ) (row : Job) (q : Queue) → IsValid q → IsValid (take_row now row q).1
unfolding take_row
take_row-IsValid now row q v = elim (Option-cases (find? (pending_at row.id) q.rows)) [
  | inl e ↦ rw (e, take_row) v
  | inr (j, e) ↦
      rw (e, take_row)
        (update-IsValid (pending_at row.id) (claim_row now) q (claim_row-KeepsIdentity now)
          (λ k r h. claim_row-RowIsValid now k r (pending_at→pending row.id k h)) v)
]

claim-IsValid : (now : ℕ) (q : Queue) → IsValid q → IsValid (claim now q).1
unfolding claim
claim-IsValid now q v = elim (Option-cases (oldest_pending q.rows)) [
  | inl e ↦ rw (e, claim) v
  | inr (row, e) ↦ rw (e, claim) (take_row-IsValid now row q v)
]

module _ (id generation : ℕ) (f : Job → Job) (same : KeepsIdentity f) where
  terminal-IsValid :
      ((j : Job) → RowIsValid j → terminal_where id generation j ≡ true → RowIsValid (f j))
      → (q : Queue) → IsValid q
      → IsValid (terminal id generation f q).1
  unfolding terminal
  terminal-IsValid keeps q v = update-IsValid (terminal_where id generation) f q same keeps v

-- Every transaction keeps the invariant.
pub apply-IsValid : (op : Op) (q : Queue) → IsValid q → IsValid (apply op q)
unfolding apply revive reclaim_stalled release complete supersede fail
apply-IsValid (admit_op d now) q v = admit-IsValid d now q v
apply-IsValid (revive_op d trigger now) q v =
    update-IsValid (revivable d trigger now) (revive_row d now) q (revive_row-KeepsIdentity d now)
      (λ j r _. revive_row-RowIsValid d now j r) v
apply-IsValid (claim_op now) q v = claim-IsValid now q v
apply-IsValid (reclaim_op lease now) q v =
    update-IsValid (stalled lease now) (reclaim_row now) q (reclaim_row-KeepsIdentity now)
      (λ j r h. reclaim_row-RowIsValid now j r (stalled→running lease now j h)) v
apply-IsValid (release_op id g) q v =
    terminal-IsValid id g release_row release_row-KeepsIdentity
      (λ j r h. release_row-RowIsValid j r (terminal_where→running id g j h)) q v
apply-IsValid (complete_op id verdict g owes now) q v =
    terminal-IsValid id g _ (complete_row-KeepsIdentity verdict owes now)
      (λ j r h. complete_row-RowIsValid verdict owes now j r (terminal_where→running id g j h)) q v
apply-IsValid (supersede_op id g now) q v =
    terminal-IsValid id g _ (supersede_row-KeepsIdentity now)
      (λ j r h. supersede_row-RowIsValid now j r (running→open j (terminal_where→running id g j h)))
      q v
apply-IsValid (fail_op id error g now) q v =
    terminal-IsValid id g _ (fail_row-KeepsIdentity error max_attempts now)
      (λ j r h. fail_row-RowIsValid error now j r (terminal_where→running id g j h)) q v

-- A trace of transactions, in any order and with any arguments, keeps the table well formed: row
-- ids and (installation, repository, pull request, head) keys stay distinct, ids stay below the
-- sequence, a row has spent at most 3 attempts and is failed exactly when it has spent them all, it
-- has a finish time exactly when it is neither pending nor running, a pending row has no start
-- time, a running row has one, and a done row carries no error.
pub run-IsValid : (ops : List Op) (q : Queue) → IsValid q → IsValid (run ops q)
unfolding run
run-IsValid [] q v = v
run-IsValid (op ∷ ops) q v = run-IsValid ops (apply op q) (apply-IsValid op q v)

pub empty-IsValid : IsValid empty
empty-IsValid = record { rows_valid = tt; ids_below = tt; ids_distinct = tt; keys_distinct = tt }
