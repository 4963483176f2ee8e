-- ===== src/Reviews/Budget.antt =====
-- worker.py: how many jobs a pass of `drain` attempts, and when it ends.
use doug.Prelude.{
  ℕ, zero, suc, ◌+◌, ◌≤◌, ◌<◌, ◌≡◌, refl, Option, none, some, nat_eq, arith, Bool-cases, inl, inr,
}
use mathlib.Core.Path.{subst}
use doug.Prelude.{true, ◌⊎◌, ap, sym, In, List, any-true, ◌==◌, nat_beq_iff, Distinct, length}
use doug.Reviews.Valid.{AreValid}
use doug.Reviews.Pass.{drain-IsSound}
use doug.Ingest.{Job, Queue, claim, release}
use doug.Reviews.{Tables, Turn}
use doug.Reviews.Drain.{
  Pass, contains, attempt, Step, stop, next, after_claim, interrupted, step, go_on, drain_loop,
  new_pass, drain,
}

-- A round that goes on has attempted one job more, and a round that stops none.
abbrev Counts : Pass → Step → Type 0
Counts p (stop r) = r.attempted ≡ p.attempted
Counts p (next r) = r.attempted ≡ p.attempted + 1

after_claim-Counts :
    (turn : Turn) (p : Pass) (r : Option Job × Queue) → Counts p (after_claim turn p r)
unfolding after_claim attempt
after_claim-Counts turn p (none, q) = refl
after_claim-Counts turn p (some job, q) = elim (Bool-cases (contains p.seen job.id)) [
  | inl e ↦ rw (e, after_claim) refl
  | inr e ↦ rw (e, after_claim) refl
]

step-Counts : (turn : Turn) (p : Pass) → Counts p (step turn p)
unfolding step
step-Counts turn p = after_claim-Counts turn (interrupted turn p) _

go_on-bounded :
    (f : Pass → Pass) (left : ℕ) (p : Pass) (r : Step)
    → Counts p r
    → ((q : Pass) → (f q).attempted ≤ q.attempted + left)
    → (go_on f r).attempted ≤ p.attempted + suc left
go_on-bounded f left p (stop r) c h = omega arith
go_on-bounded f left p (next r) c h = omega (arith, h r)

-- The attempts of the rest of a pass.
loop-bounded :
    (turns : ℕ → Turn) (left : ℕ) (p : Pass)
    → (drain_loop turns left p).attempted ≤ p.attempted + left
unfolding drain_loop
loop-bounded turns zero p = omega arith
loop-bounded turns (suc left) p =
    go_on-bounded (drain_loop turns left) left p (step (turns p.attempted) p)
      (step-Counts (turns p.attempted) p) (loop-bounded turns left)

go_on-settled :
    (f g : Pass → Pass) (left : ℕ) (p : Pass) (r : Step)
    → Counts p r
    → ((q : Pass) → (f q).attempted < q.attempted + left → g q ≡ f q)
    → (go_on f r).attempted < p.attempted + suc left
    → go_on g r ≡ go_on f r
go_on-settled f g left p (stop r) c h below = refl
go_on-settled f g left p (next r) c h below = h r (omega arith)

-- A pass that ends under its budget would end so with more.
loop-settled :
    (turns : ℕ → Turn) (left extra : ℕ) (p : Pass)
    → (drain_loop turns left p).attempted < p.attempted + left
    → drain_loop turns (left + extra) p ≡ drain_loop turns left p
unfolding drain_loop
loop-settled turns zero extra p h = absurd (omega arith)
loop-settled turns (suc left) extra p h =
    let longer : suc left + extra ≡ suc (left + extra) = omega arith in
    rw longer (
      go_on-settled (drain_loop turns left) (drain_loop turns (left + extra)) left p
        (step (turns p.attempted) p) (step-Counts (turns p.attempted) p)
        (λ q below. loop-settled turns left extra q below) h)

-- A pass attempts at most `max_jobs` jobs.
pub drain_bounded :
    (turns : ℕ → Turn) (max_jobs lease now : ℕ) (t : Tables)
    → (drain turns max_jobs lease now t).attempted ≤ max_jobs
unfolding drain
drain_bounded turns max_jobs lease now t = omega (arith, loop-bounded turns max_jobs (new_pass _))

-- The last claim of a pass, at the tables `u`: it found no pending job, or a job that the pass has
-- attempted before, which was released.
pub EndsWith : Turn → Pass → Type 0
EndsWith turn p =
    (u : Tables) × let c = claim turn.claimed_at u.queue in
      ((c.0 ≡ none) × (p.tables ≡ record u { queue = c.1 }))
      ⊎ ((job : Job) × (c.0 ≡ some job)
          × In job.id p.seen
          × (p.tables ≡ record u { queue = (release job.id job.claim_generation c.1).1 }))

abbrev Ends : Turn → Step → Type 0
Ends turn (stop r) = EndsWith turn r
Ends turn (next r) = Unit

contains-In : (ids : List ℕ) (id : ℕ) → contains ids id ≡ true → In id ids
contains-In ids id h =
    let (i, m, e) = any-true (λ i. i == id) ids h in
    subst (λ n. In n ids) ((nat_beq_iff i id).0 e) m

after_claim-Ends :
    (turn : Turn) (p : Pass) (c : Option Job × Queue)
    → claim turn.claimed_at p.tables.queue ≡ c
    → Ends turn (after_claim turn p c)
unfolding after_claim EndsWith
after_claim-Ends turn p (none, q) e =
    (p.tables, inl (ap (λ c. c.0) e, ap (λ c. record p.tables { queue = c.1 }) (sym e)))
after_claim-Ends turn p (some job, q) e = elim (Bool-cases (contains p.seen job.id)) [
  | inl f ↦
      rw (f, after_claim)
        (
          p.tables,
          inr (
            job,
            ap (λ c. c.0) e,
            contains-In p.seen job.id f,
            ap (λ c. record p.tables { queue = (release job.id job.claim_generation c.1).1 })
                (sym e),
          ),
        )
  | inr f ↦ rw (f, after_claim) tt
]

step-Ends : (turn : Turn) (p : Pass) → Ends turn (step turn p)
unfolding step
step-Ends turn p = after_claim-Ends turn (interrupted turn p) _ refl

go_on-Ends :
    (turns : ℕ → Turn) (f : Pass → Pass) (left : ℕ) (p : Pass) (r : Step)
    → Counts p r
    → Ends (turns p.attempted) r
    → ((q : Pass) → (f q).attempted < q.attempted + left → EndsWith (turns (f q).attempted) (f q))
    → (go_on f r).attempted < p.attempted + suc left
    → EndsWith (turns (go_on f r).attempted) (go_on f r)
go_on-Ends turns f left p (stop r) c e h below = subst (λ n. EndsWith (turns n) r) (sym c) e
go_on-Ends turns f left p (next r) c e h below = h r (omega arith)

loop-Ends :
    (turns : ℕ → Turn) (left : ℕ) (p : Pass)
    → (drain_loop turns left p).attempted < p.attempted + left
    → EndsWith (turns (drain_loop turns left p).attempted) (drain_loop turns left p)
unfolding drain_loop
loop-Ends turns zero p h = absurd (omega arith)
loop-Ends turns (suc left) p h =
    let turn = turns p.attempted in
    go_on-Ends turns (drain_loop turns left) left p (step turn p) (step-Counts turn p)
      (step-Ends turn p) (loop-Ends turns left) h

-- A pass over well-formed tables that attempts fewer jobs than its budget ends because its last
-- claim, the one of the round after its last attempt, finds no pending job, which leaves the tables
-- as that claim left them, or a job that the pass has attempted already, which it releases; the jobs
-- that it has attempted are as many different ones as it counts; and with any larger budget it does
-- just the same.
pub drain_settles :
    (turns : ℕ → Turn) (max_jobs extra lease now : ℕ) (t : Tables)
    → AreValid t
    → (drain turns max_jobs lease now t).attempted < max_jobs
    → let p = drain turns max_jobs lease now t in
      EndsWith (turns p.attempted) p
      × Distinct p.seen
      × (length p.seen ≡ p.attempted)
      × (drain turns (max_jobs + extra) lease now t ≡ p)
unfolding drain
drain_settles turns max_jobs extra lease now t v h =
    let sound = drain-IsSound turns max_jobs lease now t v in
    (
      loop-Ends turns max_jobs (new_pass _) (omega arith),
      sound.distinct,
      sound.counted,
      loop-settled turns max_jobs extra (new_pass _) (omega arith),
    )
