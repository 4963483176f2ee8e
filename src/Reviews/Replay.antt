-- ===== src/Reviews/Replay.antt =====
-- worker.py: a commit that has a verdict is not read again, and its job is finished from the row.
use doug.Prelude.{
  ℕ, ◌≡◌, refl, Bool, true, false, Option, none, some, [], ◌∷◌, Text, nat_eq, Bool-cases, inl, inr,
  All,
}
use doug.Ingest.{Job, done}
use doug.Ingest.Fencing.Advance.{row_at}
use doug.Reviews.{
  Verdict, Tables, Turn, check_run, comment, returned, Attempt, find_verdict_by_identity, perform,
  post, publish, render_then_publish, replay_recorded, after_lookup, names_owner, with_client,
  process_job,
}
use doug.Reviews.Trace.{Traced, Traced-trans, Traced-perform}
use doug.Reviews.Lookup.{found-after}
use doug.Reviews.Events.{Recorded, is_paid}

abbrev pub BuysNothing : Attempt → Type 0
BuysNothing a = All (λ e. is_paid e ≡ false) a.events

post-BuysNothing :
    (held : Bool) (job : Job) (id : ℕ) (fresh : Bool) (t : Tables)
    → BuysNothing (post held job id fresh t)
post-BuysNothing true job id fresh t = (refl, (refl, tt))
post-BuysNothing false job id fresh t = tt

render-BuysNothing :
    (e : Option Text) (turn : Turn) (job : Job) (id : ℕ) (fresh : Bool) (t : Tables)
    → BuysNothing (render_then_publish e turn job id fresh t)
unfolding render_then_publish publish
render-BuysNothing (some e) turn job id fresh t = tt
render-BuysNothing none turn job id fresh t = post-BuysNothing _ job id fresh _

replay-BuysNothing :
    (e : Option Text) (turn : Turn) (job : Job) (t : Tables) (v : Verdict)
    → find_verdict_by_identity job t.verdicts ≡ some v
    → BuysNothing (with_client turn job e t)
unfolding with_client after_lookup replay_recorded
replay-BuysNothing (some e) turn job t v f = tt
replay-BuysNothing none turn job t v f = elim (Bool-cases (names_owner job.repo_full_name)) [
  | inl e ↦
      rw (e, f, with_client, after_lookup)
        (render-BuysNothing turn.rendering_error turn job v.id false t)
  | inr e ↦ rw (e, with_client) tt
]

-- Once the verdict of a commit is recorded, then after any transactions of any process an attempt
-- at a job for that commit, by any worker, begins no paid read, whatever GitHub answers.
pub known-BuysNothing :
    (job : Job) (id : ℕ) (t u : Tables) (turn : Turn)
    → Recorded t job id
    → Traced t u
    → BuysNothing (process_job turn job u)
unfolding process_job
known-BuysNothing job id t u turn read g =
    let (v, f) = found-after job id read (Traced-trans g (Traced-perform turn.before_lookup u)) in
    replay-BuysNothing turn.client_error turn job (perform turn.before_lookup u) v f

-- The job's row is done with the verdict, and both surfaces were posted.
abbrev pub Finishes : Job → ℕ → Attempt → Type 0
Finishes job id a =
    (a.ended ≡ returned (some id))
    × (a.events ≡ comment job false ∷ check_run job id ∷ [])
    × ((k : Job) × (row_at job.id a.tables.queue ≡ some k)
        × (k.status ≡ done)
        × (k.verdict_id ≡ some id))
