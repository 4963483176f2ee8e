-- ===== src/Ingest/Fencing/Advance.antt =====
-- ingest.py: how one row may change under one transaction, and under a trace of them.
use doug.Prelude.{
  ℕ, ◌≤◌, ◌<◌, ◌≡◌, refl, ap, ◌∙◌, Bool, true, false, Option, some, List, [], ◌∷◌, ◌==◌, nat_eq,
  arith, All-at, find?, find?-some, find?-update_where, update_where, any, Bool-cases, Option-cases,
  inl, inr, if◌then◌else◌,
}
use doug.Ingest.Op.{
  Op, admit_op, revive_op, claim_op, reclaim_op, release_op, complete_op, supersede_op, fail_op,
  apply, run,
}
use doug.Ingest.Invariant.{
  key, IsValid, KeepsIdentity, supersede_row-KeepsIdentity, revive_row-KeepsIdentity,
  claim_row-KeepsIdentity, reclaim_row-KeepsIdentity, release_row-KeepsIdentity,
  complete_row-KeepsIdentity, fail_row-KeepsIdentity, apply-IsValid,
}
use doug.Ingest.{
  done, Job, Delivery, Queue, Trigger, collides, new_job, overtaken, supersede_row, revivable,
  revive_row, claim_row, pending_at, stalled, reclaim_row, terminal_where, release_row,
  complete_row, fail_row, max_attempts, admit, revive, claim, oldest_pending, take_row,
  reclaim_stalled, release, complete, supersede, fail,
}

-- The row with this primary key.
abbrev pub row_at : ℕ → Queue → Option Job
row_at id q = find? (λ j. j.id == id) q.rows

pub record Advances (j k : Job) : Type 0 where
  pub same_id : k.id ≡ j.id
  pub same_key : key k ≡ key j
  pub generation_grows : j.claim_generation ≤ k.claim_generation
  pub done_is_final : j.status ≡ done → k ≡ j

pub Advances-refl : (j : Job) → Advances j j
Advances-refl j = record {
  same_id = refl;
  same_key = refl;
  generation_grows = omega arith;
  done_is_final = λ _. refl;
}

pub Advances-trans : (i j k : Job) → Advances i j → Advances j k → Advances i k
Advances-trans i j k a b = record {
  same_id = b.same_id ∙ a.same_id;
  same_key = b.same_key ∙ a.same_key;
  generation_grows = omega arith;
  done_is_final =
      λ e. let s = a.done_is_final e in b.done_is_final (ap (λ (t : Job). t.status) s ∙ e) ∙ s;
}

-- A write that touches no done row and lowers no generation advances each row that it touches.
abbrev Moves : (Job → Bool) → (Job → Job) → Type 0
Moves p f =
    (j : Job)
    → p j ≡ true
    → (j.claim_generation ≤ (f j).claim_generation) × (j.status ≡ done → f j ≡ j)

moved :
    (p : Job → Bool) (f : Job → Job)
    → KeepsIdentity f
    → Moves p f
    → (j : Job) → Advances j (if p j then f j else j)
moved p f same moves j = elim (Bool-cases (p j)) [
  | inl e ↦ rw e (record {
    same_id = same.same_id j;
    same_key = same.same_key j;
    generation_grows = (moves j e).0;
    done_is_final = (moves j e).1;
  })
  | inr e ↦ rw e (Advances-refl j)
]

-- The row that a query by primary key finds later advances the one that it finds now.
abbrev pub Follows : ℕ → Queue → Queue → Type 0
Follows id q r =
    (j : Job) → row_at id q ≡ some j → (k : Job) × (row_at id r ≡ some k) × Advances j k

update-Follows :
    (p : Job → Bool) (f : Job → Job)
    → KeepsIdentity f
    → Moves p f
    → (id : ℕ) (q : Queue) → Follows id q (record q { rows = update_where p f q.rows })
update-Follows p f same moves id q j h = (
  if p j then f j else j,
  find?-update_where (λ i. i.id == id) p f (λ i. ap (λ (n : ℕ). n == id) (same.same_id i)) q.rows h,
  moved p f same moves j,
)

supersede-Moves : (d : Delivery) (now : ℕ) → Moves (overtaken d) (supersede_row now)
unfolding overtaken supersede_row
supersede-Moves d now j h = ground arith

revive-Moves : (d : Delivery) (t : Trigger) (now : ℕ) → Moves (revivable d t now) (revive_row d now)
unfolding revivable revive_row
revive-Moves d t now j h = ground arith

claim-Moves : (id now : ℕ) → Moves (pending_at id) (claim_row now)
unfolding pending_at claim_row
claim-Moves id now j h = ground arith

reclaim-Moves : (lease now : ℕ) → Moves (stalled lease now) (reclaim_row now)
unfolding stalled reclaim_row
reclaim-Moves lease now j h = ground arith

release-Moves : (id g : ℕ) → Moves (terminal_where id g) release_row
unfolding terminal_where release_row
release-Moves id g j h = ground arith

complete-Moves :
    (id g : ℕ) (v : Option ℕ) (owes : Bool) (now : ℕ)
    → Moves (terminal_where id g) (complete_row v owes now)
unfolding terminal_where complete_row
complete-Moves id g v owes now j h = ground arith

terminal_supersede-Moves : (id g now : ℕ) → Moves (terminal_where id g) (supersede_row now)
unfolding terminal_where supersede_row
terminal_supersede-Moves id g now j h = ground arith

fail-Moves :
    (id g : ℕ) (error : List ℕ) (cap now : ℕ) → Moves (terminal_where id g) (fail_row error cap now)
unfolding terminal_where fail_row
fail-Moves id g error cap now j h = ground arith

same-Follows : (id : ℕ) (q : Queue) → Follows id q q
same-Follows id q j h = (j, h, Advances-refl j)

admit-Follows : (d : Delivery) (now id : ℕ) (q : Queue) → IsValid q → Follows id q (admit d now q).1
unfolding admit new_job
admit-Follows d now id q v j h = elim (Bool-cases (any (collides d) q.rows)) [
  | inl e ↦ rw (e, admit) (same-Follows id q j h)
  | inr e ↦
      let m = find?-some (λ i. i.id == id) q.rows h in
      let below = All-at (λ i. i.id < q.next_id) v.ids_below m.0 in
      let new : (q.next_id == id) ≡ false = ground (arith, m.1) in
      let (k, found, a) =
        update-Follows (overtaken d) (supersede_row now) (supersede_row-KeepsIdentity now)
          (supersede-Moves d now) id q j h in
      rw (e, admit) (k, rw new found, a)
]

take_row-Follows : (now : ℕ) (row : Job) (id : ℕ) (q : Queue) → Follows id q (take_row now row q).1
unfolding take_row
take_row-Follows now row id q j h = elim (Option-cases (find? (pending_at row.id) q.rows)) [
  | inl e ↦ rw (e, take_row) (same-Follows id q j h)
  | inr (i, e) ↦
      rw (e, take_row)
        (update-Follows (pending_at row.id) (claim_row now) (claim_row-KeepsIdentity now)
          (claim-Moves row.id now) id q j h)
]

claim-Follows : (now id : ℕ) (q : Queue) → Follows id q (claim now q).1
unfolding claim
claim-Follows now id q j h = elim (Option-cases (oldest_pending q.rows)) [
  | inl e ↦ rw (e, claim) (same-Follows id q j h)
  | inr (row, e) ↦ rw (e, claim) (take_row-Follows now row id q j h)
]

apply-Follows : (op : Op) (id : ℕ) (q : Queue) → IsValid q → Follows id q (apply op q)
unfolding apply revive reclaim_stalled release complete supersede fail
apply-Follows (admit_op d now) id q v = admit-Follows d now id q v
apply-Follows (revive_op d t now) id q v =
    update-Follows _ _ (revive_row-KeepsIdentity d now) (revive-Moves d t now) id q
apply-Follows (claim_op now) id q v = claim-Follows now id q
apply-Follows (reclaim_op lease now) id q v =
    update-Follows _ _ (reclaim_row-KeepsIdentity now) (reclaim-Moves lease now) id q
apply-Follows (release_op i g) id q v =
    update-Follows _ _ release_row-KeepsIdentity (release-Moves i g) id q
apply-Follows (complete_op i verdict g owes now) id q v =
    update-Follows _ _ (complete_row-KeepsIdentity verdict owes now)
      (complete-Moves i g verdict owes now) id q
apply-Follows (supersede_op i g now) id q v =
    update-Follows _ _ (supersede_row-KeepsIdentity now) (terminal_supersede-Moves i g now) id q
apply-Follows (fail_op i error g now) id q v =
    update-Follows _ _ (fail_row-KeepsIdentity error max_attempts now)
      (fail-Moves i g error max_attempts now) id q

-- Over any trace a row keeps its id and its (installation, repository, pull request, head) key, its
-- claim generation never falls, and once it is done no transaction changes it.
pub run-Follows : (ops : List Op) (id : ℕ) (q : Queue) → IsValid q → Follows id q (run ops q)
unfolding run
run-Follows [] id q v j h = same-Follows id q j h
run-Follows (op ∷ ops) id q v j h =
    let (k, found, a) = apply-Follows op id q v j h in
    let (l, found', b) = run-Follows ops id (apply op q) (apply-IsValid op q v) k found in
    (l, found', Advances-trans j k l a b)
