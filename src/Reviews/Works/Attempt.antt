-- ===== src/Reviews/Works/Attempt.antt =====
-- worker.py: every step of an attempt leads from tables to tables by transactions of `Works`.
use doug.Prelude.{
  Text, ℕ, ◌≡◌, refl, Bool, true, false, String, Option, none, some, nat_eq, string_eq, ◌==◌,
  Bool-cases, inl, inr,
}
use doug.Ingest.{
  Job, Delivery, Queue, Result, ok, value_error, live, complete, supersede, enqueue, admit,
  or_revive,
}
use doug.Ingest.Op.{complete_op, apply}
use doug.Reviews.{
  Scored, Verdict, Tables, Answer, answered, raises, Pull, Turn, Saved, created, peer, not_saved,
  save_review, act_on, perform, post, publish, render_then_publish, replay_recorded, replay_peer,
  after_save, after_reading, read_and_save, usable, retire, head_job, after_enqueue, replace_head,
  at_head, check_pull, names_owner, after_lookup, with_client, process_job,
  find_verdict_by_identity, Ended, returned, raised,
}
use doug.Reviews.Trace.{Traced}
use doug.Reviews.Drain.{or_fail}
use doug.Reviews.Works.{
  IsOfPull, Works, Works-trans, Works-Traced, Works-Own, left-In, before_replacing-own,
  during_pull-own, during_reading-own, before_peer_lookup-own, during_rendering-own,
  before_failing-own, Works-after, completes, retires, charges, saves, admits, revives, at_rest,
}

-- `enqueue` is one transaction, or two, or none.
Works-or_revive :
    (turn : Turn) (job : Job) (d : Delivery)
    → IsOfPull job d
    → (now : ℕ) (r : Option ℕ × Queue) (t : Tables)
    → Works turn job (record t { queue = r.1 }) (record t { queue = (or_revive d live now r).1 })
unfolding or_revive apply act_on
Works-or_revive turn job d o now (some id, q) t = at_rest
Works-or_revive turn job d o now (none, q) t = Works-Own (revives d now o) (record t { queue = q })

Works-enqueue :
    (turn : Turn) (job : Job) (d : Delivery)
    → IsOfPull job d
    → (now now' : ℕ) (t : Tables)
    → Works turn job t (record t { queue = (enqueue d live now now' t.queue).1 })
unfolding enqueue apply act_on
Works-enqueue turn job d o now now' t = elim (Bool-cases (d.base_sha == "")) [
  | inl e ↦ rw e at_rest
  | inr e ↦ rw e (
      Works-trans (Works-Own (admits d now o) t)
        (Works-or_revive turn job d o now' (admit d now t.queue) t))
]

post-tables :
    (held : Bool) (job : Job) (id : ℕ) (fresh : Bool) (t : Tables)
    → (post held job id fresh t).tables ≡ t
post-tables true job id fresh t = refl
post-tables false job id fresh t = refl

Works-publish :
    (turn : Turn) (job : Job) (id : ℕ) (fresh : Bool) (t : Tables)
    → Works turn job t (publish turn job id fresh t).tables
unfolding publish apply act_on
Works-publish turn job id fresh t =
    let op = complete_op job.id (some id) job.claim_generation true turn.completed_at in
    rw
      (post-tables (complete job.id (some id) job.claim_generation true turn.completed_at t.queue).0
        job id fresh (record t { queue = apply op t.queue }))
      (Works-Own (completes id turn.completed_at) t)

Works-render :
    (e : Option Text) (turn : Turn) (job : Job) (id : ℕ) (fresh : Bool) (t : Tables)
    → Works turn job t (render_then_publish e turn job id fresh t).tables
unfolding render_then_publish
Works-render (some e) turn job id fresh t = at_rest
Works-render none turn job id fresh t =
    Works-after turn job turn.during_rendering (λ a m. during_rendering-own turn m) t
      (Works-publish turn job id fresh (perform turn.during_rendering t))

Works-peer :
    (turn : Turn) (job : Job) (v : Option Verdict) (t : Tables)
    → Works turn job t (replay_peer turn job v t).tables
unfolding replay_peer replay_recorded
Works-peer turn job none t = at_rest
Works-peer turn job (some v) t = Works-render turn.rendering_error turn job v.id false t

Works-saved :
    (turn : Turn) (job : Job) (r : Saved × Tables)
    → Works turn job r.1 (after_save turn job r).tables
unfolding after_save
Works-saved turn job (created id, t) = Works-render turn.rendering_error turn job id true t
Works-saved turn job (peer id, t) =
    Works-after turn job turn.before_peer_lookup (λ a m. before_peer_lookup-own turn m) t
      (Works-peer turn job _ (perform turn.before_peer_lookup t))
Works-saved turn job (not_saved, t) = at_rest

Works-reading :
    (turn : Turn) (job : Job) (a : Answer Scored) (t : Tables)
    → Works turn job t (after_reading turn job a t).tables
unfolding after_reading act_on
Works-reading turn job (raises e) t = at_rest
Works-reading turn job (answered tier) t =
    Works-trans (Works-Own (saves tier) t) (Works-saved turn job (save_review job tier t))

Works-enqueued :
    (t : Tables) (r : Result (Option ℕ) × Queue)
    → (after_enqueue t r).tables ≡ record t { queue = r.1 }
Works-enqueued t (ok id, q) = refl
Works-enqueued t (value_error, q) = refl

Works-replace :
    (turn : Turn) (job : Job) (current : String) (base : Option String) (t : Tables)
    → Works turn job t (replace_head turn job current base t).tables
unfolding replace_head apply act_on
Works-replace turn job current none t = at_rest
Works-replace turn job current (some base) t =
    let retired = record t {
      queue = (supersede job.id job.claim_generation turn.retired_at t.queue).1;
    } in
    let u = perform turn.before_replacing retired in
    let d = head_job job current base in
    let of_pull : IsOfPull job d = record {
      same_installation = refl;
      same_repository = refl;
      same_name = refl;
      same_pull_request = refl;
    } in
    Works-trans (Works-Own (retires turn.retired_at) t) (
      Works-after turn job turn.before_replacing (λ a m. before_replacing-own turn m) retired
        (rw (Works-enqueued u (enqueue d live turn.enqueued_at turn.revived_at u.queue))
          (Works-enqueue turn job d of_pull turn.enqueued_at turn.revived_at u)))

Works-at_head :
    (turn : Turn) (job : Job) (p : Pull) (current : Option String) (repo : Option ℕ) (t : Tables)
    → Works turn job t (at_head turn job p current repo t).tables
unfolding at_head retire read_and_save apply act_on
Works-at_head turn job p none repo t = at_rest
Works-at_head turn job p (some current) none t = at_rest
Works-at_head turn job p (some current) (some repo) t =
    elim (Bool-cases (repo == job.github_repo_id)) [
      | inr e ↦ rw e (Works-Own (retires turn.retired_at) t)
      | inl e ↦ elim (Bool-cases (current == job.head_sha)) [
        | inr f ↦ rw (e, f) (Works-replace turn job current (usable p.base_sha) t)
        | inl f ↦
            rw (e, f)
              (Works-after turn job turn.during_reading (λ a m. during_reading-own turn m) t
                (Works-reading turn job turn.reading (perform turn.during_reading t)))
      ]
    ]

Works-pull :
    (turn : Turn) (job : Job) (a : Answer Pull) (t : Tables)
    → Works turn job t (check_pull turn job a t).tables
unfolding check_pull
Works-pull turn job (raises e) t = at_rest
Works-pull turn job (answered p) t = Works-at_head turn job p _ _ t

Works-lookup :
    (turn : Turn) (job : Job) (v : Option Verdict) (t : Tables)
    → Works turn job t (after_lookup turn job v t).tables
unfolding after_lookup replay_recorded
Works-lookup turn job (some v) t = Works-render turn.rendering_error turn job v.id false t
Works-lookup turn job none t =
    Works-after turn job turn.during_pull (λ a m. during_pull-own turn m) t
      (Works-pull turn job turn.pull (perform turn.during_pull t))

Works-client :
    (turn : Turn) (job : Job) (e : Option Text) (t : Tables)
    → Works turn job t (with_client turn job e t).tables
unfolding with_client
Works-client turn job (some e) t = at_rest
Works-client turn job none t = elim (Bool-cases (names_owner job.repo_full_name)) [
  | inl e ↦ rw e (Works-lookup turn job (find_verdict_by_identity job t.verdicts) t)
  | inr e ↦ rw e at_rest
]

pub Works-process_job :
    (turn : Turn) (job : Job) (t : Tables) → Works turn job t (process_job turn job t).tables
unfolding process_job
Works-process_job turn job t =
    Works-after turn job turn.before_lookup (λ a m. left-In _ m) t
      (Works-client turn job turn.client_error (perform turn.before_lookup t))

pub Traced-process_job :
    (turn : Turn) (job : Job) (t : Tables) → Traced t (process_job turn job t).tables
Traced-process_job turn job t = Works-Traced (Works-process_job turn job t)

Works-or_fail :
    (turn : Turn) (job : Job) (ended : Ended) (t : Tables)
    → Works turn job t (or_fail turn job ended t)
unfolding apply act_on
Works-or_fail turn job (returned id) t = at_rest
Works-or_fail turn job (raised e) t =
    Works-after turn job turn.before_failing (λ a m. before_failing-own turn m) t
      (Works-Own (charges e turn.failed_at) (perform turn.before_failing t))

-- An attempt, with the handler of an error.
pub Works-attempt :
    (turn : Turn) (job : Job) (t : Tables)
    → let a = process_job turn job t in Works turn job t (or_fail turn job a.ended a.tables)
Works-attempt turn job t =
    let a = process_job turn job t in
    Works-trans (Works-process_job turn job t) (Works-or_fail turn job a.ended a.tables)
