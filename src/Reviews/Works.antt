-- ===== src/Reviews/Works.antt =====
-- worker.py: what one attempt does to the tables is a sequence of the transactions of its own job, and
-- of those that other processes commit meanwhile.
pub mod Attempt
use doug.Prelude.{
  Text, ℕ, ◌≡◌, refl, Bool, true, false, String, Option, none, some, List, [], ◌∷◌, ◌++◌, nat_eq,
  string_eq, ◌==◌, Bool-cases, inl, inr, In, here, there,
}
use doug.Ingest.{
  Job, Delivery, Queue, Result, ok, value_error, live, complete, supersede, enqueue, admit,
  or_revive,
}
use doug.Ingest.Op.{admit_op, revive_op, complete_op, supersede_op, fail_op, apply}
use doug.Reviews.{
  Scored, Verdict, Tables, Act, queue_act, review_act, Answer, answered, raises, Pull, Turn, Saved,
  created, peer, not_saved, save_review, act_on, perform, post, publish, render_then_publish,
  replay_recorded, replay_peer, after_save, after_reading, read_and_save, usable, retire, head_job,
  after_enqueue, replace_head, at_head, check_pull, names_owner, after_lookup, with_client,
  process_job, find_verdict_by_identity, Ended, returned, raised,
}
use doug.Reviews.Trace.{Traced, stay, by_act}
use doug.Reviews.Drain.{or_fail}

-- The delivery names the pull request of the job.
pub record IsOfPull (job : Job) (d : Delivery) : Type 0 where
  pub same_installation : d.installation_id ≡ job.installation_id
  pub same_repository : d.github_repo_id ≡ job.github_repo_id
  pub same_name : d.repo_full_name ≡ job.repo_full_name
  pub same_pull_request : d.pr_number ≡ job.pr_number

-- What the worker may commit for a job that it claimed: to complete, retire or fail that job under its
-- own claim, to save a review of it, and to enqueue a head of its pull request.
pub data Own (job : Job) : Act → Type 0 where
  completes :
      (verdict_id now : ℕ)
      → Own job (queue_act (complete_op job.id (some verdict_id) job.claim_generation true now))
  retires : (now : ℕ) → Own job (queue_act (supersede_op job.id job.claim_generation now))
  charges : (e : Text) (now : ℕ) → Own job (queue_act (fail_op job.id e job.claim_generation now))
  saves : (tier : Scored) → Own job (review_act job tier)
  admits : (d : Delivery) (now : ℕ) → IsOfPull job d → Own job (queue_act (admit_op d now))
  revives : (d : Delivery) (now : ℕ) → IsOfPull job d → Own job (queue_act (revive_op d live now))

-- What others commit during an attempt.
abbrev pub meanwhile : Turn → List Act
meanwhile turn =
    turn.before_lookup
    ++ (turn.during_pull
        ++ (turn.before_replacing
            ++ (turn.during_reading
                ++ (turn.before_peer_lookup ++ (turn.during_rendering ++ turn.before_failing)))))

-- The second tables come from the first by transactions of the worker for this job, and by those of
-- others in this turn.
pub data Works (turn : Turn) (job : Job) : Tables → Tables → Type 0 where
  at_rest : {t : Tables} → Works turn job t t
  others :
      {t u : Tables} (a : Act)
      → In a (meanwhile turn)
      → Works turn job (act_on a t) u
      → Works turn job t u
  its_own :
      {t u : Tables} (a : Act) → Own job a → Works turn job (act_on a t) u → Works turn job t u

pub Works-trans :
    {turn : Turn} {job : Job} {t u v : Tables}
    → Works turn job t u
    → Works turn job u v
    → Works turn job t v
Works-trans at_rest h = h
Works-trans (others a m g) h = others a m (Works-trans g h)
Works-trans (its_own a o g) h = its_own a o (Works-trans g h)

pub Works-Traced : {turn : Turn} {job : Job} {t u : Tables} → Works turn job t u → Traced t u
Works-Traced at_rest = stay
Works-Traced (others a m g) = by_act a (Works-Traced g)
Works-Traced (its_own a o g) = by_act a (Works-Traced g)

pub Works-Own :
    {turn : Turn} {job : Job} {a : Act} → Own job a → (t : Tables) → Works turn job t (act_on a t)
Works-Own {a = a} o t = its_own a o at_rest

pub left-In {ℓ} : {A : Type ℓ} {x : A} {xs : List A} (ys : List A) → In x xs → In x (xs ++ ys)
left-In ys here = here
left-In ys (there m) = there (left-In ys m)

right-In {ℓ} : {A : Type ℓ} {x : A} (xs : List A) {ys : List A} → In x ys → In x (xs ++ ys)
right-In [] m = m
right-In (z ∷ xs) m = there (right-In xs m)

pub during_pull-own : (turn : Turn) {a : Act} → In a turn.during_pull → In a (meanwhile turn)
during_pull-own turn m = right-In turn.before_lookup (left-In _ m)

pub before_replacing-own :
    (turn : Turn) {a : Act} → In a turn.before_replacing → In a (meanwhile turn)
before_replacing-own turn m = right-In turn.before_lookup (right-In turn.during_pull (left-In _ m))

from_reading :
    (turn : Turn) {a : Act}
    → In a (
        turn.during_reading
        ++ (turn.before_peer_lookup ++ (turn.during_rendering ++ turn.before_failing)))
    → In a (meanwhile turn)
from_reading turn m =
    right-In turn.before_lookup (right-In turn.during_pull (right-In turn.before_replacing m))

pub during_reading-own : (turn : Turn) {a : Act} → In a turn.during_reading → In a (meanwhile turn)
during_reading-own turn m = from_reading turn (left-In _ m)

pub before_peer_lookup-own :
    (turn : Turn) {a : Act} → In a turn.before_peer_lookup → In a (meanwhile turn)
before_peer_lookup-own turn m = from_reading turn (right-In turn.during_reading (left-In _ m))

pub during_rendering-own :
    (turn : Turn) {a : Act} → In a turn.during_rendering → In a (meanwhile turn)
during_rendering-own turn m =
    from_reading turn
      (right-In turn.during_reading (right-In turn.before_peer_lookup (left-In _ m)))

pub before_failing-own : (turn : Turn) {a : Act} → In a turn.before_failing → In a (meanwhile turn)
before_failing-own turn m = from_reading turn (
    right-In turn.during_reading
      (right-In turn.before_peer_lookup (right-In turn.during_rendering m)))

-- After what others committed.
pub Works-after :
    (turn : Turn) (job : Job) (acts : List Act)
    → ((a : Act) → In a acts → In a (meanwhile turn))
    → (t : Tables) {u : Tables} → Works turn job (perform acts t) u
    → Works turn job t u
unfolding perform
Works-after turn job [] sub t h = h
Works-after turn job (a ∷ acts) sub t h =
    others a (sub a here) (Works-after turn job acts (λ b m. sub b (there m)) (act_on a t) h)
