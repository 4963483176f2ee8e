-- ===== src/Reviews/Events.antt =====
-- worker.py: what an attempt may do outside the database.
use doug.Prelude.{
  ℕ, ◌≤◌, count_if, count_if-append, ◌≡◌, refl, Bool, true, false, none, some, List, [], ◌∷◌, ◌++◌,
  nat_eq, string_eq, arith, All, All-append, In,
}
use doug.Ingest.{Job}
use doug.Reviews.{
  Verdict, Tables, identifies, Event, paid_read, check_run, comment, Ended, returned, raised,
  Attempt, bought,
}
use doug.Reviews.Valid.{Published}

-- A verdict of the table that is a read of the job's commit.
abbrev pub Recorded : Tables → Job → ℕ → Type 0
Recorded t job id = (v : Verdict) × In v t.verdicts × (v.id ≡ id) × (identifies job v ≡ true)

-- A posted check run names a recorded verdict of a finished job, and so does a comment.
abbrev pub Backed : Tables → Event → Type 0
Backed t (paid_read job) = Unit
Backed t (check_run job id) = Published t job id
Backed t (comment job fresh) = (id : ℕ) × Published t job id

abbrev pub is_paid : Event → Bool
is_paid (paid_read job) = true
is_paid (check_run job id) = false
is_paid (comment job fresh) = false

abbrev pub job_of : Event → Job
job_of (paid_read job) = job
job_of (check_run job id) = job
job_of (comment job fresh) = job

-- Only an attempt that ends with a verdict posts.
abbrev pub Quiet : Ended → List Event → Type 0
Quiet (returned (some id)) es = Unit
Quiet (returned none) es = All (λ e. is_paid e ≡ true) es
Quiet (raised error) es = All (λ e. is_paid e ≡ true) es

-- What an attempt that buys at most `n` reads does outside the database.
pub record IsFair (n : ℕ) (job : Job) (a : Attempt) : Type 0 where
  pub backed : All (Backed a.tables) a.events
  pub reads : count_if is_paid a.events ≤ n
  pub own : All (λ e. job_of e ≡ job) a.events
  pub quiet : Quiet a.ended a.events

pub silent-IsFair :
    (n : ℕ) (job : Job) (ended : Ended) (t : Tables)
    → IsFair n job (record { ended = ended; events = []; tables = t })
silent-IsFair n job (returned (some id)) t = record {
  backed = tt;
  reads = omega arith;
  own = tt;
  quiet = tt;
}
silent-IsFair n job (returned none) t = record {
  backed = tt;
  reads = omega arith;
  own = tt;
  quiet = tt;
}
silent-IsFair n job (raised e) t = record { backed = tt; reads = omega arith; own = tt; quiet = tt }

pub more-IsFair : (n : ℕ) (job : Job) (a : Attempt) → IsFair 0 job a → IsFair n job a
more-IsFair n job a f = record {
  backed = f.backed;
  reads = omega (arith, f.reads);
  own = f.own;
  quiet = f.quiet;
}

Quiet-bought :
    (ended : Ended) (es : List Event) (job : Job)
    → Quiet ended es
    → Quiet ended (es ++ paid_read job ∷ [])
Quiet-bought (returned (some id)) es job h = tt
Quiet-bought (returned none) es job h =
    All-append (λ e. is_paid e ≡ true) es (paid_read job ∷ []) h (refl, tt)
Quiet-bought (raised e) es job h =
    All-append (λ e. is_paid e ≡ true) es (paid_read job ∷ []) h (refl, tt)

pub bought-IsFair : (job : Job) (a : Attempt) → IsFair 0 job a → IsFair 1 job (bought job a)
bought-IsFair job a f = record {
  backed = All-append (Backed a.tables) a.events (paid_read job ∷ []) f.backed (tt, tt);
  reads =
      let n = count_if-append is_paid a.events (paid_read job ∷ []) in
      let none_before = f.reads in omega arith;
  own = All-append (λ e. job_of e ≡ job) a.events (paid_read job ∷ []) f.own (refl, tt);
  quiet = Quiet-bought a.ended a.events job f.quiet;
}
