-- ===== src/Ingest/Admission.antt =====
-- ingest.py: what `enqueue` promises to the webhook and to the reconcile sweep.
use doug.Prelude.{
  ℕ, suc, ◌+◌, ◌≤◌, ◌≡◌, refl, true, false, Option, none, some, arith, In, All, All-of_In,
  All-each_updated, find?, find?-some, find?-none, find?-update_where, update_where_none, any,
  any-true, Bool-cases, Option-cases, inl, inr, ◌⊎◌, ◌==◌, nat_eq, string_eq, ◌&&◌, ◌||◌,
  if◌then◌else◌,
}
use mathlib.Core.Bool.{false≢true}
use doug.Prelude.{Each, Each-update_where, update_where, List, ◌∷◌, sym, ◌∙◌, ◌≢◌}
use doug.Ingest.Invariant.{IsValid, skip-IsValid}
use doug.Ingest.Fencing.Advance.{row_at}
use doug.Ingest.Fencing.Holder.{row_at-In}
use doug.Ingest.{
  Status, pending, running, done, failed, Job, Delivery, Trigger, Queue, ok, seconds,
  failed_revive_cooloff_seconds, is_failed, is_superseded, is_reconcile, unset_or_older, superseded,
  value_error, job_filter, collides, new_job, overtaken, supersede_row, revivable, revive_row,
  admit, or_revive, revive, enqueue,
}

-- The row is queued for the work that the delivery names, from its first attempt on.
pub record IsQueuedFor (d : Delivery) (k : Job) : Type 0 where
  pub its_key : collides d k ≡ true
  pub waiting : k.status ≡ pending
  pub its_base : k.base_sha ≡ some d.base_sha
  pub fresh : k.attempts ≡ 0

-- The three reasons for which a colliding row is left alone: it is queued or in flight, it is
-- reviewed, or the sweep asks and the row gave up less than the cooloff ago.
pub record IsCooling (trigger : Trigger) (now : ℕ) (k : Job) : Type 0 where
  pub by_the_sweep : is_reconcile trigger ≡ true
  pub gave_up : k.status ≡ failed
  pub at : ℕ
  pub finished : k.finished_at ≡ some at
  pub too_soon : now ≤ at + seconds failed_revive_cooloff_seconds

abbrev pub IsHeld : Trigger → ℕ → Job → Type 0
IsHeld trigger now k =
    (k.status ≡ pending) ⊎ (k.status ≡ running) ⊎ (k.status ≡ done) ⊎ IsCooling trigger now k

-- What `enqueue` leaves behind each of its answers.
abbrev pub Admitted : Delivery → Trigger → ℕ → Queue → Option ℕ → Queue → Type 0
Admitted d trigger now q (some id) q' = (k : Job) × (row_at id q' ≡ some k) × IsQueuedFor d k
Admitted d trigger now q none q' =
    (q'.rows ≡ q.rows) × ((k : Job) × In k q.rows × (collides d k ≡ true) × IsHeld trigger now k)

new_job-IsQueuedFor : (d : Delivery) (now id : ℕ) → IsQueuedFor d (new_job d now id)
unfolding collides new_job
new_job-IsQueuedFor d now id = record {
  its_key = ground (arith, string_eq.same_iff d.head_sha d.head_sha);
  waiting = refl;
  its_base = refl;
  fresh = refl;
}

revive_row-IsQueuedFor :
    (d : Delivery) (t : Trigger) (now : ℕ) (j : Job)
    → revivable d t now j ≡ true
    → IsQueuedFor d (revive_row d now j)
unfolding revivable revive_row
revive_row-IsQueuedFor d t now j h = ground arith

cooling :
    (t : Trigger) (now : ℕ) (j : Job) (f : Option ℕ)
    → j.status ≡ failed
    → j.finished_at ≡ f
    → (if is_reconcile t
        then unset_or_older f (seconds failed_revive_cooloff_seconds) now
        else true)
      ≡ false
    → IsCooling t now j
cooling t now j none s f h = ground arith
cooling t now j (some at) s f h = record {
  by_the_sweep = ground arith;
  gave_up = s;
  at = at;
  finished = f;
  too_soon = ground arith;
}

IsHeld-of_status :
    (t : Trigger) (now : ℕ) (j : Job) (s : Status)
    → j.status ≡ s
    → (is_superseded s
        || is_failed s
          && (if is_reconcile t
              then unset_or_older j.finished_at (seconds failed_revive_cooloff_seconds) now
              else true))
      ≡ false
    → IsHeld t now j
IsHeld-of_status t now j pending e h = inl e
IsHeld-of_status t now j running e h = inr (inl e)
IsHeld-of_status t now j done e h = inr (inr (inl e))
IsHeld-of_status t now j failed e h = inr (inr (inr (cooling t now j j.finished_at e refl h)))
IsHeld-of_status t now j superseded e h = ground arith

IsHeld-of_unrevivable :
    (d : Delivery) (t : Trigger) (now : ℕ) (j : Job)
    → collides d j ≡ true
    → revivable d t now j ≡ false
    → IsHeld t now j
unfolding revivable
IsHeld-of_unrevivable d t now j c h = IsHeld-of_status t now j j.status refl (rw c at h)

revive-Admitted :
    (d : Delivery) (t : Trigger) (now : ℕ) (q : Queue)
    → IsValid q
    → any (collides d) q.rows ≡ true
    → Admitted d t now q (revive d t now q).0 (revive d t now q).1
unfolding revive
revive-Admitted d t now q v c = elim (Option-cases (find? (revivable d t now) q.rows)) [
  | inl e ↦
      let (j, m, p) = any-true (collides d) q.rows c in
      let nowhere =
        All-of_In (λ i. revivable d t now i ≡ false) q.rows
          (λ i w. find?-none (revivable d t now) q.rows e w) in
      rw (e, revive)
        (
          update_where_none _ (revive_row d now) q.rows nowhere,
          (j, m, p, IsHeld-of_unrevivable d t now j p (find?-none (revivable d t now) q.rows e m)),
        )
  | inr (j, e) ↦
      let (m, p) = find?-some (revivable d t now) q.rows e in
      let new : row_at j.id (revive d t now q).1 ≡ some (revive_row d now j) = rw p at (
        find?-update_where (λ i. i.id == j.id) (revivable d t now) (revive_row d now)
          (λ i. unfold revive_row in refl) q.rows (row_at-In q v j m)) in
      rw (e, revive) (revive_row d now j, new, revive_row-IsQueuedFor d t now j p)
]

or_revive-Admitted :
    (d : Delivery) (t : Trigger) (now now' : ℕ) (q : Queue)
    → IsValid q
    → let r = or_revive d t now' (admit d now q) in Admitted d t now' q r.0 r.1
unfolding admit or_revive
or_revive-Admitted d t now now' q v = elim (Bool-cases (any (collides d) q.rows)) [
  | inl e ↦
      rw (e, admit)
        (revive-Admitted d t now' (record q { next_id = suc q.next_id }) (skip-IsValid q v) e)
  | inr e ↦
      let found : row_at q.next_id (admit d now q).1 ≡ some (new_job d now q.next_id) =
        rw (e, admit) (unfold new_job in ground arith) in
      rw (e, admit)
        (new_job d now q.next_id, rw (e, admit) at found, new_job-IsQueuedFor d now q.next_id)
]

-- `enqueue` with a base sha always answers. An id names a row that is now pending for exactly this
-- head, with the observed base and all its attempts; no id means that the rows are as they were and
-- that the head's row is pending, running or done, or that the sweep asked for a row that failed
-- within the cooloff. Without a base sha the call raises and changes nothing.
pub enqueue_answers :
    (d : Delivery) (t : Trigger) (now now' : ℕ) (q : Queue)
    → IsValid q
    → ((d.base_sha ≡ "") × (enqueue d t now now' q ≡ (value_error, q)))
      ⊎ ((id : Option ℕ) × ((enqueue d t now now' q).0 ≡ ok id)
          × Admitted d t now' q id (enqueue d t now now' q).1)
unfolding enqueue
enqueue_answers d t now now' q v = elim (Bool-cases (d.base_sha == "")) [
  | inl e ↦ inl ((string_eq.same_iff d.base_sha "").0 e, rw (e, enqueue) refl)
  | inr e ↦ inr (
      rw (e, enqueue)
        ((or_revive d t now' (admit d now q)).0, refl, or_revive-Admitted d t now now' q v))
]

overtaken_row_gone :
    (d : Delivery) (now : ℕ) (j : Job)
    → let k = if overtaken d j then supersede_row now j else j in
      job_filter d k ≡ true → k.status ≡ pending → k.head_sha ≡ d.head_sha
unfolding overtaken supersede_row
overtaken_row_gone d now j = ground (arith, string_eq.same_iff j.head_sha d.head_sha)

-- A pending row of the delivery's pull request for another head.
pub IsOvertaken : Delivery → Job → Type 0
IsOvertaken d j =
    (j.installation_id ≡ d.installation_id)
    × (j.github_repo_id ≡ d.github_repo_id)
    × (j.pr_number ≡ d.pr_number)
    × (j.head_sha ≢ d.head_sha)
    × (j.status ≡ pending)

-- Such a row is superseded; any other one stays.
pub GivesWay : Delivery → ℕ → Job → Job → Type 0
GivesWay d now j k =
    (IsOvertaken d j × (k ≡ record j { status = superseded; finished_at = some now }))
    ⊎ (¬ (IsOvertaken d j) × (k ≡ j))

overtaken-IsOvertaken : (d : Delivery) (j : Job) → overtaken d j ≡ true → IsOvertaken d j
unfolding overtaken IsOvertaken job_filter
overtaken-IsOvertaken d j h = (
  ground arith,
  ground arith,
  ground arith,
  (λ e. let same = (string_eq.same_iff j.head_sha d.head_sha).1 e in ground arith),
  ground arith,
)

IsOvertaken-overtaken : (d : Delivery) (j : Job) → IsOvertaken d j → overtaken d j ≡ true
unfolding overtaken IsOvertaken job_filter
IsOvertaken-overtaken d j (i, r, p, other, s) = elim (Bool-cases (j.head_sha == d.head_sha)) [
  | inl e ↦ absurd (other ((string_eq.same_iff j.head_sha d.head_sha).0 e))
  | inr e ↦ rw (e, s) (ground arith)
]

supersede_row-GivesWay :
    (d : Delivery) (now : ℕ) (j : Job)
    → GivesWay d now j (if overtaken d j then supersede_row now j else j)
unfolding GivesWay supersede_row
supersede_row-GivesWay d now j = elim (Bool-cases (overtaken d j)) [
  | inl e ↦ rw e (inl (overtaken-IsOvertaken d j e, refl))
  | inr e ↦ rw e (inr ((λ o. false≢true (sym e ∙ IsOvertaken-overtaken d j o)), refl))
]

-- The delivery of a head that has no row adds one, with the id that it answers, which is pending for
-- that head with all its attempts; of the older rows exactly the pending ones of the same pull
-- request for another head are superseded, in their places, with the time of the delivery, and every
-- other row is as it was; so that the head is the only pending one of its pull request.
pub admit-supersedes :
    (d : Delivery) (now : ℕ) (q : Queue) (id : ℕ)
    → (admit d now q).0 ≡ some id
    → ((new : Job) × (older : List Job) × ((admit d now q).1.rows ≡ new ∷ older)
        × (new.id ≡ id)
        × IsQueuedFor d new
        × Each (GivesWay d now) q.rows older)
      × All
          (λ k. job_filter d k ≡ true → k.status ≡ pending → k.head_sha ≡ d.head_sha)
          (admit d now q).1.rows
unfolding admit
admit-supersedes d now q id h = elim (Bool-cases (any (collides d) q.rows)) [
  | inl e ↦ let lost : none ≡ some id = rw (e, admit) at h in ground arith
  | inr e ↦
      let named : q.next_id ≡ id =
        let it : some q.next_id ≡ some id = rw (e, admit) at h in cc it in
      rw (e, admit)
        (
          (
            new_job d now q.next_id,
            update_where (overtaken d) (supersede_row now) q.rows,
            refl,
            unfold new_job in named,
            new_job-IsQueuedFor d now q.next_id,
            Each-update_where (GivesWay d now) (overtaken d) (supersede_row now)
                (supersede_row-GivesWay d now) q.rows,
          ),
          (
            λ _ _. unfold new_job in refl,
            All-each_updated
                (λ k. job_filter d k ≡ true → k.status ≡ pending → k.head_sha ≡ d.head_sha)
                (overtaken d) (supersede_row now) (overtaken_row_gone d now) q.rows,
          ),
        )
]
