-- ===== src/Reviews.antt =====
-- api/doug/worker.py: one attempt at a review job, over the queue of ingest.py and the verdicts of
-- store.py.
--
-- What GitHub, the model and the other processes do during an attempt is a `Turn`: an answer for
-- each call, and the transactions that others commit between two of the worker's own, the two of one
-- `enqueue` excepted. The events of an attempt are listed from the last to the first.
mod Rows
mod Verdicts
pub mod Drain
pub mod Trace
pub mod Works
pub mod Valid
pub mod Events
pub mod Lookup
pub mod Published
pub mod Pass
pub mod Refines
pub mod Replay
pub mod Budget
pub mod Retries
mod Tests
unfoldable pub use Rows.*
unfoldable pub use Verdicts.*
use doug.Prelude.{
  ℕ, suc, String, Bool, true, false, ◌&&◌, not, Option, none, some, List, [], ◌∷◌, ◌++◌, any, ◌==◌,
  nat_eq, string_eq, option_eq, leb, if◌then◌else◌, find?, Text, codes,
}
use doug.Ingest.{Job, Delivery, Queue, Result, ok, value_error, live, enqueue, complete, supersede}
use doug.Ingest.Op.{apply}

-- The check run and the comment, once `complete` held; after a lost claim, nothing.
abbrev pub post : Bool → Job → ℕ → Bool → Tables → Attempt
post true job verdict_id fresh t = record {
  ended = returned (some verdict_id);
  events = comment job fresh ∷ check_run job verdict_id ∷ [];
  tables = t;
}
post false job verdict_id fresh t = record {
  ended = returned (some verdict_id);
  events = [];
  tables = t;
}

-- The end of both paths to a verdict: `complete`, then `post`. The verdict is durable, so that the
-- comment is owed.
pub publish : Turn → Job → ℕ → Bool → Tables → Attempt
publish turn job verdict_id fresh t =
    let (held, q) =
      complete job.id (some verdict_id) job.claim_generation true turn.completed_at t.queue in
    post held job verdict_id fresh (record t { queue = q })

abbrev pub failed_attempt : String → Tables → Attempt
failed_attempt message t = record { ended = raised (codes message); events = []; tables = t }

-- What follows the rendering of the text, which may raise.
pub render_then_publish : Option Text → Turn → Job → ℕ → Bool → Tables → Attempt
unfolding publish
render_then_publish (some e) turn job verdict_id fresh t = record {
  ended = raised e;
  events = [];
  tables = t;
}
render_then_publish none turn job verdict_id fresh t =
    publish turn job verdict_id fresh (perform turn.during_rendering t)

pub replay_recorded : Turn → Job → Verdict → Tables → Attempt
unfolding render_then_publish
replay_recorded turn job existing t =
    render_then_publish turn.rendering_error turn job existing.id false t

abbrev pub first_found : Option Verdict → Option Verdict → Option Verdict
first_found none w = w
first_found (some v) w = some v

pub replay_peer : Turn → Job → Option Verdict → Tables → Attempt
unfolding replay_recorded
replay_peer turn job none t =
    failed_attempt
      "save_review reported an existing identity but neither identity nor id lookup found it" t
replay_peer turn job (some v) t = replay_recorded turn job v t

-- After `save_review`.
pub after_save : Turn → Job → Saved × Tables → Attempt
unfolding render_then_publish replay_peer find_verdict_by_identity
after_save turn job (created id, t) = render_then_publish turn.rendering_error turn job id true t
after_save turn job (peer id, t) =
    let u = perform turn.before_peer_lookup t in
    replay_peer turn job
      (first_found (find_verdict_by_identity job u.verdicts) (find_verdict_by_id id u.verdicts)) u
after_save turn job (not_saved, t) = failed_attempt "IntegrityError" t

abbrev pub bought : Job → Attempt → Attempt
bought job a = record a { events = a.events ++ paid_read job ∷ [] }

pub after_reading : Turn → Job → Answer Scored → Tables → Attempt
unfolding after_save save_review
after_reading turn job (raises e) t = record { ended = raised e; events = []; tables = t }
after_reading turn job (answered tier) t = after_save turn job (save_review job tier t)

pub read_and_save : Turn → Job → Tables → Attempt
unfolding after_reading
read_and_save turn job t =
    bought job (after_reading turn job turn.reading (perform turn.during_reading t))

-- A commit id that is a text and not empty.
abbrev pub usable : Option String → Option String
usable none = none
usable (some s) = if s == "" then none else some s

-- The base repository is another one: the job is retired.
pub retire : Turn → Job → Tables → Attempt
retire turn job t = record {
  ended = returned none;
  events = [];
  tables = record t { queue = (supersede job.id job.claim_generation turn.retired_at t.queue).1 };
}

abbrev pub head_job : Job → String → String → Delivery
head_job job head base = record {
  installation_id = job.installation_id;
  github_repo_id = job.github_repo_id;
  repo_full_name = job.repo_full_name;
  pr_number = job.pr_number;
  head_sha = head;
  base_sha = base;
}

abbrev pub after_enqueue : Tables → Result (Option ℕ) × Queue → Attempt
after_enqueue t (ok id, q) = record {
  ended = returned none;
  events = [];
  tables = record t { queue = q };
}
after_enqueue t (value_error, q) = failed_attempt "base_sha is required" (record t { queue = q })

-- The head moved: the job is superseded, and the current head gets its own.
pub replace_head : Turn → Job → String → Option String → Tables → Attempt
replace_head turn job current none t =
    failed_attempt "GitHub pull response carried no usable base.sha for stale-head replacement" t
replace_head turn job current (some base) t =
    let retired = record t {
      queue = (supersede job.id job.claim_generation turn.retired_at t.queue).1;
    } in
    let u = perform turn.before_replacing retired in
    after_enqueue u
      (enqueue (head_job job current base) live turn.enqueued_at turn.revived_at u.queue)

pub at_head : Turn → Job → Pull → Option String → Option ℕ → Tables → Attempt
unfolding retire replace_head read_and_save
at_head turn job pull none repo t =
    failed_attempt "GitHub pull response carried no usable head.sha" t
at_head turn job pull (some current) none t =
    failed_attempt "GitHub pull response carried no usable base.repo.id" t
at_head turn job pull (some current) (some repo) t =
    if not (repo == job.github_repo_id)
    then retire turn job t
    else if not (current == job.head_sha)
    then replace_head turn job current (usable pull.base_sha) t
    else read_and_save turn job t

pub check_pull : Turn → Job → Answer Pull → Tables → Attempt
unfolding at_head
check_pull turn job (raises e) t = record { ended = raised e; events = []; tables = t }
check_pull turn job (answered pull) t =
    at_head turn job pull (usable pull.head_sha) pull.base_repo_id t

-- After the idempotency read.
pub after_lookup : Turn → Job → Option Verdict → Tables → Attempt
unfolding replay_recorded check_pull
after_lookup turn job (some existing) t = replay_recorded turn job existing t
after_lookup turn job none t = check_pull turn job turn.pull (perform turn.during_pull t)

-- `owner, name = repo_full_name.split("/", 1)`, which raises where there is no slash.
abbrev pub names_owner : String → Bool
names_owner name = any (λ c. c == 47) (codes name)

pub with_client : Turn → Job → Option Text → Tables → Attempt
unfolding after_lookup find_verdict_by_identity
with_client turn job (some e) t = record { ended = raised e; events = []; tables = t }
with_client turn job none t =
    if names_owner job.repo_full_name
    then after_lookup turn job (find_verdict_by_identity job t.verdicts) t
    else failed_attempt "not enough values to unpack (expected 2, got 1)" t

pub process_job : Turn → Job → Tables → Attempt
unfolding with_client
process_job turn job t = with_client turn job turn.client_error (perform turn.before_lookup t)
