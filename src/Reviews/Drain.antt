-- ===== src/Reviews/Drain.antt =====
-- api/doug/worker.py: `drain`, a bounded pass over the queue.
use doug.Prelude.{
  ℕ, zero, suc, ◌+◌, Bool, Option, none, some, List, [], ◌∷◌, ◌++◌, any, ◌==◌, nat_eq,
  if◌then◌else◌,
}
use doug.Ingest.{Job, Queue, max_attempts, claim, release, fail, reclaim_stalled}
use doug.Reviews.{Turn, Tables, Event, Ended, returned, raised, Attempt, perform, process_job}

-- The locals of `drain`; the events run from the last to the first.
pub record Pass : Type 0 where
  pub attempted : ℕ
  pub seen : List ℕ
  pub events : List Event
  pub tables : Tables

abbrev pub contains : List ℕ → ℕ → Bool
contains ids id = any (λ i. i == id) ids

-- The handler around `process_job`.
abbrev pub or_fail : Turn → Job → Ended → Tables → Tables
or_fail turn job (returned id) t = t
or_fail turn job (raised e) t =
    let u = perform turn.before_failing t in
    record u { queue = (fail job.id e job.claim_generation max_attempts turn.failed_at u.queue).1 }

abbrev pub attempted_by : Turn → Job → Attempt → Pass → Pass
attempted_by turn job a p = record {
  attempted = p.attempted + 1;
  seen = job.id ∷ p.seen;
  events = a.events ++ p.events;
  tables = or_fail turn job a.ended a.tables;
}

unfoldable pub attempt : Turn → Job → Pass → Pass
unfolding process_job
attempt turn job p = attempted_by turn job (process_job turn job p.tables) p

-- Whether the loop goes on.
pub data Step : Type 0 where
  stop : Pass → Step
  next : Pass → Step

-- The body of the loop after the claim.
unfoldable pub after_claim : Turn → Pass → Option Job × Queue → Step
unfolding attempt
after_claim turn p (none, q) = stop (record p { tables = record p.tables { queue = q } })
after_claim turn p (some job, q) =
    if contains p.seen job.id
    then stop (record p {
      tables = record p.tables { queue = (release job.id job.claim_generation q).1 };
    })
    else next (attempt turn job (record p { tables = record p.tables { queue = q } }))

abbrev pub interrupted : Turn → Pass → Pass
interrupted turn p = record p { tables = perform turn.before_claim p.tables }

unfoldable pub step : Turn → Pass → Step
unfolding after_claim
step turn p =
    after_claim turn (interrupted turn p)
      (claim turn.claimed_at (perform turn.before_claim p.tables).queue)

abbrev pub go_on : (Pass → Pass) → Step → Pass
go_on f (stop p) = p
go_on f (next p) = f p

-- The loop, with the claims that are left of `max_jobs`.
unfoldable pub drain_loop : (ℕ → Turn) → ℕ → Pass → Pass
unfolding step
drain_loop turns zero p = p
drain_loop turns (suc left) p = go_on (drain_loop turns left) (step (turns p.attempted) p)

abbrev pub new_pass : Tables → Pass
new_pass t = record { attempted = 0; seen = []; events = []; tables = t }

unfoldable pub drain : (ℕ → Turn) → ℕ → ℕ → ℕ → Tables → Pass
unfolding drain_loop
drain turns max_jobs lease now t =
    drain_loop turns max_jobs
      (new_pass (record t { queue = (reclaim_stalled lease now t.queue).1 }))
