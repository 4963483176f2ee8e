-- ===== src/Ingest/Cooloff.antt =====
-- ingest.py: `cooloff_hold_remaining` explains the refusals of the reconcile sweep.
use mathlib.Core.Bool.{false≢true}
use doug.Prelude.{
  ℕ, ◌+◌, ◌-◌, ◌/◌, ◌<◌, ◌≡◌, refl, sym, ◌∙◌, true, false, Option, none, some, arith, In, All-of_In,
  find?, find?-some, find?-none, find?-none_of_All, In-unique, Bool-cases, Option-cases, inl, inr,
  if◌then◌else◌, ap, string_eq,
}
use doug.Ingest.Invariant.{IsValid, key}
use doug.Ingest.{
  failed, Job, Delivery, Queue, reconcile, live, collides, revivable, revive, seconds, hold_of,
  hold_from, failed_revive_cooloff_seconds, cooloff_hold_remaining, is_failed,
}

same_key_of_collides :
    (d : Delivery) (i j : Job) → collides d i ≡ true → collides d j ≡ true → key i ≡ key j
unfolding collides
same_key_of_collides d i j h k =
    ground
      (arith, string_eq.same_iff i.head_sha d.head_sha, string_eq.same_iff j.head_sha d.head_sha)

-- What a hold says of the row that it is about.
pub record Cools (now r : ℕ) (j : Job) : Type 0 where
  pub gave_up : j.status ≡ failed
  pub at : ℕ
  pub finished : j.finished_at ≡ some at
  pub waiting : now < at + seconds failed_revive_cooloff_seconds
  pub whole_seconds : r ≡ (at + seconds failed_revive_cooloff_seconds - now) / 1000000

hold_of-Cools :
    (now r : ℕ) (j : Job) (f : Option ℕ)
    → j.finished_at ≡ f
    → (if is_failed j.status then hold_from now f else none) ≡ some r
    → Cools now r j
hold_of-Cools now r j none e h = ground arith
hold_of-Cools now r j (some at) e h = record {
  gave_up = ground arith;
  at = at;
  finished = e;
  waiting = ground arith;
  whole_seconds = ground arith;
}

swept : (d : Delivery) (now r : ℕ) (j : Job) → Cools now r j → revivable d reconcile now j ≡ false
unfolding revivable
swept d now r j c = ground arith

live_revivable :
    (d : Delivery) (now r : ℕ) (j : Job)
    → collides d j ≡ true
    → Cools now r j
    → revivable d live now j ≡ true
unfolding revivable
live_revivable d now r j h c = ground arith

revivable→collides :
    (d : Delivery) (now : ℕ) (j : Job) → revivable d reconcile now j ≡ true → collides d j ≡ true
unfolding revivable
revivable→collides d now j h = ground arith

find-live :
    (d : Delivery) (now : ℕ) (q : Queue) (j : Job)
    → In j q.rows
    → revivable d live now j ≡ true
    → (id : ℕ) × ((revive d live now q).0 ≡ some id)
unfolding revive
find-live d now q j m p = elim (Option-cases (find? (revivable d live now) q.rows)) [
  | inl e ↦ absurd (false≢true (sym (find?-none (revivable d live now) q.rows e m) ∙ p))
  | inr (i, e) ↦ (i.id, rw (e, revive) refl)
]

-- When a hold of r seconds is reported for a head, its row is failed and r is what is left of the
-- cooloff, in whole seconds; and at that instant the sweep would revive nothing, while a live event
-- would revive the row.
pub hold_explains_refusal :
    (d : Delivery) (now r : ℕ) (q : Queue)
    → IsValid q
    → cooloff_hold_remaining d now q ≡ some r
    → ((j : Job) × In j q.rows × (collides d j ≡ true) × Cools now r j)
      × ((revive d reconcile now q).0 ≡ none)
      × (id : ℕ) × ((revive d live now q).0 ≡ some id)
unfolding cooloff_hold_remaining
hold_explains_refusal d now r q v h = elim (Option-cases (find? (collides d) q.rows)) [
  | inl e ↦ let lost : none ≡ some r = rw (e, cooloff_hold_remaining) at h in ground arith
  | inr (j, e) ↦
      let (m, p) = find?-some (collides d) q.rows e in
      let its_hold : hold_of now (some j) ≡ some r = rw (e, cooloff_hold_remaining) at h in
      let c = hold_of-Cools now r j j.finished_at refl its_hold in
      let nowhere : find? (revivable d reconcile now) q.rows ≡ none =
        find?-none_of_All _ q.rows (All-of_In _ q.rows (not_swept j m p c)) in
      let (id, found) = find-live d now q j m (live_revivable d now r j p c) in
      ((j, m, p, c), unfold revive in rw (nowhere) refl, id, found)
]
  where
    not_swept :
        (j : Job)
        → In j q.rows
        → collides d j ≡ true
        → Cools now r j
        → (i : Job) → In i q.rows
        → revivable d reconcile now i ≡ false
    not_swept j m p c i n = elim (Bool-cases (revivable d reconcile now i)) [
      | inl t ↦
          let it =
            In-unique key q.rows v.keys_distinct n m
              (same_key_of_collides d i j (revivable→collides d now i t) p) in
          ap (revivable d reconcile now) it ∙ swept d now r j c
      | inr f ↦ f
    ]
