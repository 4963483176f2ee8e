-- ===== src/Reviews/Published.antt =====
-- worker.py: every branch of an attempt posts only what the tables bear out.
use doug.Prelude.{
  ℕ, String, ◌≡◌, refl, Bool, true, false, Option, none, some, ◌==◌, Text, nat_eq, string_eq, arith,
  here, Bool-cases, Option-cases, inl, inr,
}
use mathlib.Core.Path.{subst}
use doug.Ingest.{Job, Queue, Result, ok, value_error, live, complete, supersede, enqueue}
use doug.Ingest.Fencing.{complete-row_at}
use doug.Reviews.{
  Scored, Verdict, Tables, Saved, created, peer, not_saved, Turn, Answer, answered, raises, Pull,
  returned, review_row, is_taken, find_verdict_by_identity, save_review, perform, post, publish,
  render_then_publish, replay_recorded, replay_peer, after_save, after_reading, read_and_save,
  usable, retire, head_job, after_enqueue, replace_head, at_head, check_pull, names_owner,
  after_lookup, with_client, process_job,
}
use doug.Reviews.Trace.{Traced-perform, Traced-save}
use doug.Reviews.Valid.{AreValid, Traced-AreValid, Published, Traced-In, review_row-identifies}
use doug.Reviews.Lookup.{found-Recorded, found-after}
use doug.Reviews.Events.{Recorded, IsFair, silent-IsFair, more-IsFair, bought-IsFair}

post-IsFair :
    (held : Bool) (job : Job) (id : ℕ) (fresh : Bool) (t : Tables)
    → (held ≡ true → Published t job id)
    → IsFair 0 job (post held job id fresh t)
post-IsFair true job id fresh t h = record {
  backed = ((id, h refl), (h refl, tt));
  reads = omega arith;
  own = (refl, (refl, tt));
  quiet = tt;
}
post-IsFair false job id fresh t h = silent-IsFair 0 job (returned (some id)) t

publish-IsFair :
    (turn : Turn) (job : Job) (id : ℕ) (fresh : Bool) (t : Tables)
    → AreValid t
    → Recorded t job id
    → IsFair 0 job (publish turn job id fresh t)
unfolding publish
publish-IsFair turn job id fresh t h read =
    let g = job.claim_generation in
    let (held, q) = complete job.id (some id) g true turn.completed_at t.queue in
    post-IsFair held job id fresh (record t { queue = q })
      (λ e.
        (complete-row_at job.id (some id) g true turn.completed_at t.queue h.queue_valid e, read))

render-IsFair :
    (e : Option Text) (turn : Turn) (job : Job) (id : ℕ) (fresh : Bool) (t : Tables)
    → AreValid t
    → Recorded t job id
    → IsFair 0 job (render_then_publish e turn job id fresh t)
unfolding render_then_publish
render-IsFair (some e) turn job id fresh t h read = silent-IsFair 0 job _ t
render-IsFair none turn job id fresh t h (v, m, same, read) =
    let g = Traced-perform turn.during_rendering t in
    publish-IsFair turn job id fresh (perform turn.during_rendering t) (Traced-AreValid g h)
      (v, Traced-In g v m, same, read)

peer-IsFair :
    (turn : Turn) (job : Job) (v : Option Verdict) (t : Tables)
    → AreValid t
    → ((w : Verdict) → v ≡ some w → Recorded t job w.id)
    → IsFair 0 job (replay_peer turn job v t)
unfolding replay_peer replay_recorded
peer-IsFair turn job none t h read = silent-IsFair 0 job _ t
peer-IsFair turn job (some v) t h read =
    render-IsFair turn.rendering_error turn job v.id false t h (read v refl)

-- What `save_review` answers is about a verdict of the table that is a read of the commit.
abbrev pub SavedRight : Job → Saved × Tables → Type 0
SavedRight job (created id, t) = Recorded t job id
SavedRight job (peer id, t) =
    (v : Verdict) × (find_verdict_by_identity job t.verdicts ≡ some v) × (v.id ≡ id)
SavedRight job (not_saved, t) = Unit

save_review-SavedRight :
    (job : Job) (tier : Scored) (t : Tables) → SavedRight job (save_review job tier t)
unfolding save_review
save_review-SavedRight job tier t = elim (Bool-cases (is_taken job t.verdicts)) [
  | inr e ↦
      rw (e, save_review)
        (
          review_row job tier t.next_verdict,
          here,
          unfold review_row in refl,
          review_row-identifies job tier t.next_verdict,
        )
  | inl e ↦ elim (Option-cases (find_verdict_by_identity job t.verdicts)) [
    | inl f ↦ rw (e, f, save_review) tt
    | inr (v, f) ↦ rw (e, f, save_review) (v, f, refl)
  ]
]

saved-IsFair :
    (turn : Turn) (job : Job) (r : Saved × Tables)
    → AreValid r.1
    → SavedRight job r
    → IsFair 0 job (after_save turn job r)
unfolding after_save
saved-IsFair turn job (created id, t) h read =
    render-IsFair turn.rendering_error turn job id true t h read
saved-IsFair turn job (peer id, t) h (v, f, same) =
    let g = Traced-perform turn.before_peer_lookup t in
    let u = perform turn.before_peer_lookup t in
    let (w, found) = found-after job v.id (found-Recorded job t v f) g in
    rw (found, after_save)
      (peer-IsFair turn job (some w) u (Traced-AreValid g h) (λ x e.
        let it : w ≡ x = cc in subst (λ y. Recorded u job y.id) it (found-Recorded job u w found)))
saved-IsFair turn job (not_saved, t) h read = silent-IsFair 0 job _ t

reading-IsFair :
    (turn : Turn) (job : Job) (a : Answer Scored) (t : Tables)
    → AreValid t
    → IsFair 0 job (after_reading turn job a t)
unfolding after_reading
reading-IsFair turn job (raises e) t h = silent-IsFair 0 job _ t
reading-IsFair turn job (answered tier) t h =
    saved-IsFair turn job (save_review job tier t) (Traced-AreValid (Traced-save job tier t) h)
      (save_review-SavedRight job tier t)

-- Every branch that posts nothing.
enqueued-IsFair :
    (n : ℕ) (job : Job) (t : Tables) (r : Result (Option ℕ) × Queue)
    → IsFair n job (after_enqueue t r)
enqueued-IsFair n job t (ok id, q) = silent-IsFair n job _ _
enqueued-IsFair n job t (value_error, q) = silent-IsFair n job _ _

replace-IsFair :
    (turn : Turn) (job : Job) (current : String) (base : Option String) (t : Tables)
    → IsFair 1 job (replace_head turn job current base t)
unfolding replace_head
replace-IsFair turn job current none t = silent-IsFair 1 job _ t
replace-IsFair turn job current (some base) t =
    let (gone, q) = supersede job.id job.claim_generation turn.retired_at t.queue in
    let u = perform turn.before_replacing (record t { queue = q }) in
    enqueued-IsFair 1 job u
      (enqueue (head_job job current base) live turn.enqueued_at turn.revived_at u.queue)

at_head-IsFair :
    (turn : Turn) (job : Job) (p : Pull) (current : Option String) (repo : Option ℕ) (t : Tables)
    → AreValid t
    → IsFair 1 job (at_head turn job p current repo t)
unfolding at_head retire read_and_save
at_head-IsFair turn job p none repo t h = silent-IsFair 1 job _ t
at_head-IsFair turn job p (some current) none t h = silent-IsFair 1 job _ t
at_head-IsFair turn job p (some current) (some repo) t h =
    elim (Bool-cases (repo == job.github_repo_id)) [
      | inr e ↦ rw (e, at_head) (silent-IsFair 1 job _ _)
      | inl e ↦ elim (Bool-cases (current == job.head_sha)) [
        | inr f ↦ rw (e, f, at_head) (replace-IsFair turn job current (usable p.base_sha) t)
        | inl f ↦
            let g = Traced-perform turn.during_reading t in
            rw (e, f, at_head)
              (bought-IsFair job _ (
                reading-IsFair turn job turn.reading (perform turn.during_reading t)
                  (Traced-AreValid g h)))
      ]
    ]

pull-IsFair :
    (turn : Turn) (job : Job) (p : Answer Pull) (t : Tables)
    → AreValid t
    → IsFair 1 job (check_pull turn job p t)
unfolding check_pull
pull-IsFair turn job (raises e) t h = silent-IsFair 1 job _ t
pull-IsFair turn job (answered p) t h = at_head-IsFair turn job p _ _ t h

lookup-IsFair :
    (turn : Turn) (job : Job) (v : Option Verdict) (t : Tables)
    → AreValid t
    → ((w : Verdict) → v ≡ some w → Recorded t job w.id)
    → IsFair 1 job (after_lookup turn job v t)
unfolding after_lookup replay_recorded
lookup-IsFair turn job (some v) t h read =
    more-IsFair 1 job _ (render-IsFair turn.rendering_error turn job v.id false t h (read v refl))
lookup-IsFair turn job none t h read =
    let g = Traced-perform turn.during_pull t in
    pull-IsFair turn job turn.pull (perform turn.during_pull t) (Traced-AreValid g h)

client-IsFair :
    (turn : Turn) (job : Job) (e : Option Text) (t : Tables)
    → AreValid t
    → IsFair 1 job (with_client turn job e t)
unfolding with_client
client-IsFair turn job (some e) t h = silent-IsFair 1 job _ t
client-IsFair turn job none t h = elim (Bool-cases (names_owner job.repo_full_name)) [
  | inl e ↦
      rw (e, with_client)
        (lookup-IsFair turn job (find_verdict_by_identity job t.verdicts) t h
          (λ v f. found-Recorded job t v f))
  | inr e ↦ rw (e, with_client) (silent-IsFair 1 job _ t)
]

pub process_job-IsFair :
    (turn : Turn) (job : Job) (t : Tables) → AreValid t → IsFair 1 job (process_job turn job t)
unfolding process_job
process_job-IsFair turn job t h =
    let g = Traced-perform turn.before_lookup t in
    client-IsFair turn job turn.client_error (perform turn.before_lookup t) (Traced-AreValid g h)
