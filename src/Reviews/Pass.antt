-- ===== src/Reviews/Pass.antt =====
-- worker.py: what one pass of `drain` does to the tables, to GitHub and to the budget.
use doug.Prelude.{
  ℕ, zero, suc, ◌≤◌, ◌≡◌, ◌≢◌, refl, sym, false, ◌&&◌, Option, none, some, List, [], ◌∷◌, ◌++◌,
  ◌==◌, nat_eq, arith, length, count_if, count_if-append, All, All-at, All-append, All-map_at,
  All-of_any-false, All-of_In, In, there, here, Distinct, Bool-cases, inl, inr,
}
use mathlib.Core.Path.{subst}
use doug.Ingest.{Job, Queue, claim, reclaim_stalled}
use doug.Ingest.Op.{claim_op, release_op, fail_op, reclaim_op, apply}
use doug.Reviews.{Tables, Turn, Event, Ended, returned, raised, Attempt, perform, process_job}
use doug.Reviews.Trace.{Traced, stay, Traced-trans, Traced-perform, Traced-op}
use doug.Reviews.Works.Attempt.{Traced-process_job}
use doug.Reviews.Valid.{AreValid, Traced-AreValid, Traced-Published}
use doug.Reviews.Events.{Backed, is_paid, job_of, IsFair}
use doug.Reviews.Published.{process_job-IsFair}
use doug.Reviews.Drain.{
  Pass, contains, or_fail, attempt, Step, stop, next, after_claim, interrupted, step, go_on,
  drain_loop, new_pass, drain,
}

abbrev pub reads_of : ℕ → List Event → ℕ
reads_of id es = count_if (λ e. is_paid e && (job_of e).id == id) es

-- What holds of a pass between two rounds of its loop.
pub record IsSound (p : Pass) : Type 0 where
  pub valid : AreValid p.tables
  pub backed : All (Backed p.tables) p.events
  pub counted : length p.seen ≡ p.attempted
  pub distinct : Distinct p.seen
  pub own : All (λ e. In (job_of e).id p.seen) p.events
  pub read_once : (id : ℕ) → reads_of id p.events ≤ 1

Traced-Backed : {t u : Tables} → Traced t u → AreValid t → (e : Event) → Backed t e → Backed u e
Traced-Backed g h (Event.paid_read job) b = tt
Traced-Backed g h (Event.check_run job id) b = Traced-Published job id g h b
Traced-Backed g h (Event.comment job fresh) (id, b) = (id, Traced-Published job id g h b)

-- The tables of a pass may move on.
moved-IsSound :
    (p : Pass) (t : Tables) → Traced p.tables t → IsSound p → IsSound (record p { tables = t })
moved-IsSound p t g s = record {
  valid = Traced-AreValid g s.valid;
  backed = All-map_at (Traced-Backed g s.valid) p.events s.backed;
  counted = s.counted;
  distinct = s.distinct;
  own = s.own;
  read_once = s.read_once;
}

pub or_fail-Traced :
    (turn : Turn) (job : Job) (ended : Ended) (t : Tables) → Traced t (or_fail turn job ended t)
unfolding apply
or_fail-Traced turn job (returned id) t = stay
or_fail-Traced turn job (raised e) s =
    let t = perform turn.before_failing s in
    Traced-trans (Traced-perform turn.before_failing s)
      (Traced-op (fail_op job.id e job.claim_generation turn.failed_at) t)

-- Reads of another job, and of the job of an attempt.
reads_of-none :
    (id : ℕ) (es : List Event) → All (λ e. ((job_of e).id == id) ≡ false) es → reads_of id es ≡ 0
reads_of-none id [] h = refl
reads_of-none id (e ∷ es) h = ground (arith, reads_of-none id es)

reads_of-at_most : (id : ℕ) (es : List Event) → reads_of id es ≤ count_if is_paid es
reads_of-at_most id [] = omega arith
reads_of-at_most id (e ∷ es) = ground (arith, reads_of-at_most id es)

not_seen : (id : ℕ) (ids : List ℕ) (x : ℕ) → contains ids id ≡ false → In x ids → (x == id) ≡ false
not_seen id ids x h m = All-at (λ i. (i == id) ≡ false) (All-of_any-false (λ i. i == id) ids h) m

attempted-once :
    (job : Job) (a : Attempt) (p : Pass)
    → contains p.seen job.id ≡ false
    → IsFair 1 job a
    → IsSound p
    → (id : ℕ) → reads_of id (a.events ++ p.events) ≤ 1
attempted-once job a p new f s id =
    let parts = count_if-append (λ e. is_paid e && (job_of e).id == id) a.events p.events in
    elim (Bool-cases (job.id == id)) [
      | inl e ↦
          let same : job.id ≡ id = ground arith in
          let unseen : contains p.seen id ≡ false = rw same at new in
          let old =
            reads_of-none id p.events
              (All-map_at (λ v m. not_seen id p.seen (job_of v).id unseen m) p.events s.own) in
          let ours = reads_of-at_most id a.events in let one = f.reads in omega arith
      | inr e ↦
          let ours = reads_of-none id a.events (All-map_at (λ v m. rw m e) a.events f.own) in
          let old = s.read_once id in omega arith
    ]

apart : {id : ℕ} (y : ℕ) → (y == id) ≡ false → id ≢ y
apart y h e = ground arith

attempt-IsSound :
    (turn : Turn) (job : Job) (p : Pass)
    → contains p.seen job.id ≡ false
    → IsSound p
    → IsSound (attempt turn job p)
unfolding attempt
attempt-IsSound turn job p new s =
    let a = process_job turn job p.tables in
    let f = process_job-IsFair turn job p.tables s.valid in
    let g = Traced-process_job turn job p.tables in
    let h = or_fail-Traced turn job a.ended a.tables in
    let v = Traced-AreValid g s.valid in
    record {
      valid = Traced-AreValid h v;
      backed =
          All-append (Backed (or_fail turn job a.ended a.tables)) a.events p.events
            (All-map_at (Traced-Backed h v) a.events f.backed)
            (All-map_at (Traced-Backed (Traced-trans g h) s.valid) p.events s.backed);
      counted = omega (arith, s.counted);
      distinct = (
        All-of_In (λ y. job.id ≢ y) p.seen (λ y m. apart y (not_seen job.id p.seen y new m)),
        s.distinct,
      );
      own =
          All-append (λ e. In (job_of e).id (job.id ∷ p.seen)) a.events p.events
            (All-map_at (λ e m. subst (λ (j : Job). In j.id (job.id ∷ p.seen)) (sym m) here)
              a.events f.own)
            (All-map_at (λ e m. there m) p.events s.own);
      read_once = attempted-once job a p new f s;
    }

abbrev step_of : Step → Pass
step_of (stop p) = p
step_of (next p) = p

after_claim-IsSound :
    (turn : Turn) (p : Pass) (r : Option Job × Queue)
    → Traced p.tables (record p.tables { queue = r.1 })
    → IsSound p
    → IsSound (step_of (after_claim turn p r))
unfolding after_claim
after_claim-IsSound turn p (none, q) g s = moved-IsSound p (record p.tables { queue = q }) g s
after_claim-IsSound turn p (some job, q) g s =
    let t = record p.tables { queue = q } in
    elim (Bool-cases (contains p.seen job.id)) [
      | inl e ↦
          rw (e, after_claim)
            (moved-IsSound p _
              (Traced-trans g
                (unfold apply in Traced-op (release_op job.id job.claim_generation) t))
              s)
      | inr e ↦
          rw (e, after_claim)
            (attempt-IsSound turn job (record p { tables = t }) e (moved-IsSound p t g s))
    ]

step-IsSound : (turn : Turn) (p : Pass) → IsSound p → IsSound (step_of (step turn p))
unfolding step apply
step-IsSound turn p s =
    let g = Traced-perform turn.before_claim p.tables in
    let t = perform turn.before_claim p.tables in
    after_claim-IsSound turn (interrupted turn p) (claim turn.claimed_at t.queue)
      (Traced-op (claim_op turn.claimed_at) t) (moved-IsSound p t g s)

go_on-IsSound :
    (f : Pass → Pass) (r : Step)
    → ((p : Pass) → IsSound p → IsSound (f p))
    → IsSound (step_of r)
    → IsSound (go_on f r)
go_on-IsSound f (stop p) h s = s
go_on-IsSound f (next p) h s = h p s

loop-IsSound :
    (turns : ℕ → Turn) (left : ℕ) (p : Pass) → IsSound p → IsSound (drain_loop turns left p)
unfolding drain_loop
loop-IsSound turns zero p s = s
loop-IsSound turns (suc left) p s =
    go_on-IsSound (drain_loop turns left) (step (turns p.attempted) p) (loop-IsSound turns left)
      (step-IsSound (turns p.attempted) p s)

-- A pass over well-formed tables, whatever GitHub, the model and other processes do in it, leaves
-- them well formed, with at most one verdict a read of any commit; each check run and each comment
-- that it posts is about a job that the table shows done with a verdict that is a read of that
-- job's commit; the jobs that it attempts are different ones, as many as it reports; and it begins
-- at most one paid read for each of them, and none for another.
pub drain-IsSound :
    (turns : ℕ → Turn) (max_jobs lease now : ℕ) (t : Tables)
    → AreValid t
    → IsSound (drain turns max_jobs lease now t)
unfolding drain apply
drain-IsSound turns max_jobs lease now t v =
    let u = record t { queue = (reclaim_stalled lease now t.queue).1 } in
    let g = Traced-op (reclaim_op lease now) t in
    loop-IsSound turns max_jobs (new_pass u) (record {
      valid = Traced-AreValid g v;
      backed = tt;
      counted = refl;
      distinct = tt;
      own = tt;
      read_once = λ id. omega arith;
    })
