-- ===== src/Outcomes/Queue/Advance.antt =====
-- outcome_queue.py: the generation of a job only grows.
use doug.Prelude.{
  ℕ, ◌≤◌, ◌≡◌, refl, ◌∙◌, String, Bool, Option, none, some, List, [], ◌∷◌, ◌++◌, ◌==◌, nat_eq,
  arith, count_if, update_where, Bool-cases, Option-cases, inl, inr, Text, In, here, there,
}
use doug.Outcomes.Rows.{OutcomeJob, Outcome, Unadjudicable, DateError}
use doug.Outcomes.Queue.{OutcomeRow, Ledger, max_attempts}
use doug.Outcomes.Queue.Settle.{
  held_by, fail_row, update_one, fail_job, fail_jobs, commit, finish_row, outcome_row, settle_one,
  settle_all, refuse_all, ◌>>=◌,
}
use doug.Outcomes.Queue.Dictionaries.{Identity, lookup}

-- The same job, under the same generation or a later one.
abbrev pub Follows : OutcomeJob → OutcomeJob → Type 0
Follows j k = (j.id ≡ k.id) × (j.claim_generation ≤ k.claim_generation)

abbrev pub AllFollow : List OutcomeJob → List OutcomeJob → Type 0
AllFollow [] [] = Unit
AllFollow (j ∷ js) (k ∷ ks) = Follows j k × AllFollow js ks
AllFollow _ _ = ⊥

pub AllFollow-refl : (js : List OutcomeJob) → AllFollow js js
AllFollow-refl [] = tt
AllFollow-refl (j ∷ js) = ((refl, omega arith), AllFollow-refl js)

pub AllFollow-trans :
    (is js ks : List OutcomeJob) → AllFollow is js → AllFollow js ks → AllFollow is ks
AllFollow-trans [] [] [] a b = tt
AllFollow-trans [] [] (k ∷ ks) a b = elim b [ ]
AllFollow-trans [] (j ∷ js) ks a b = elim a [ ]
AllFollow-trans (i ∷ is) [] ks a b = elim a [ ]
AllFollow-trans (i ∷ is) (j ∷ js) [] a b = elim b [ ]
AllFollow-trans (i ∷ is) (j ∷ js) (k ∷ ks) a b =
    ((a.0.0 ∙ b.0.0, omega (arith, a.0.1, b.0.1)), AllFollow-trans is js ks a.1 b.1)

pub update_where-AllFollow :
    (p : OutcomeJob → Bool) (f : OutcomeJob → OutcomeJob)
    → ((j : OutcomeJob) → Follows j (f j))
    → (js : List OutcomeJob) → AllFollow js (update_where p f js)
update_where-AllFollow p f follows [] = tt
update_where-AllFollow p f follows (j ∷ js) = elim (Bool-cases (p j)) [
  | inl e ↦ rw e (follows j, update_where-AllFollow p f follows js)
  | inr e ↦ rw e ((refl, omega arith), update_where-AllFollow p f follows js)
]

-- A job of the list before has its follower in the list after.
pub follower :
    (js ks : List OutcomeJob) {j : OutcomeJob}
    → AllFollow js ks
    → In j js
    → (k : OutcomeJob) × In k ks × Follows j k
follower [] ks a m = elim m [ ]
follower (j ∷ js) [] a m = elim a [ ]
follower (j ∷ js) (k ∷ ks) a here = (k, here, a.0)
follower (j ∷ js) (k ∷ ks) a (there m) = let (i, n, f) = follower js ks a.1 m in (i, there n, f)

-- What a transaction may write over a ledger, if it commits.
abbrev pub Moves : Ledger → Option Ledger → Type 0
Moves l none = Unit
Moves l (some l') = AllFollow l.jobs l'.jobs

update_one-Moves :
    (job : OutcomeJob) (f : OutcomeJob → OutcomeJob)
    → ((j : OutcomeJob) → Follows j (f j))
    → (l : Ledger) → Moves l (update_one job f l)
unfolding update_one
update_one-Moves job f follows l = elim (Bool-cases (count_if (held_by job) l.jobs == 1)) [
  | inl e ↦ rw e (update_where-AllFollow (held_by job) f follows l.jobs)
  | inr e ↦ rw e tt
]

pub then-Moves :
    (f : Ledger → Option Ledger)
    → ((l : Ledger) → Moves l (f l))
    → (l : Ledger) (m : Option Ledger) → Moves l m
    → Moves l (m >>= f)
then-Moves f moves l none h = tt
then-Moves f moves l (some l') h = further (f l') (moves l')
  where
    further : (n : Option Ledger) → Moves l' n → Moves l n
    further none k = tt
    further (some l'') k = AllFollow-trans l.jobs l'.jobs l''.jobs h k

pub commit-Moves {ℓ} :
    {A : Type ℓ} (a : A) (l : Ledger) (m : Option Ledger)
    → Moves l m
    → AllFollow l.jobs (commit a l m).1.jobs
commit-Moves a l none h = AllFollow-refl l.jobs
commit-Moves a l (some l') h = h

fail_row-Follows :
    (error : Text) (now cap : ℕ) (j : OutcomeJob) → Follows j (fail_row error now cap j)
unfolding fail_row
fail_row-Follows error now cap j = (refl, omega arith)

fail_job-Moves :
    (job : OutcomeJob) (error : Text) (now cap : ℕ) (l : Ledger)
    → Moves l (fail_job job error now cap l)
unfolding fail_job
fail_job-Moves job error now cap =
    update_one-Moves job (fail_row error now cap) (fail_row-Follows error now cap)

pub fail_jobs-Moves :
    (jobs : List OutcomeJob) (error : Text) (now cap : ℕ) (l : Ledger)
    → Moves l (fail_jobs jobs error now cap l)
unfolding fail_jobs
fail_jobs-Moves [] error now cap l = AllFollow-refl l.jobs
fail_jobs-Moves (job ∷ jobs) error now cap l =
    then-Moves (fail_jobs jobs error now cap) (fail_jobs-Moves jobs error now cap) l _
      (fail_job-Moves job error now cap l)

finish_row-Follows : (now : ℕ) (j : OutcomeJob) → Follows j (finish_row now j)
unfolding finish_row
finish_row-Follows now j = (refl, omega arith)

module _ (jobs : List (Identity × OutcomeJob)) (now : ℕ) where
  settle_one-Moves :
      (row : OutcomeRow) (k : Identity) (l : Ledger) → Moves l (settle_one jobs now row k l)
  unfolding settle_one
  settle_one-Moves row k l = elim (Option-cases (lookup k jobs)) [
    | inl e ↦ rw e tt
    | inr (job, e) ↦ rw e (
        update_one-Moves job (finish_row now) (finish_row-Follows now)
          (record l { outcomes = l.outcomes ++ row ∷ [] }))
  ]

  pub settle_all-Moves :
      (repo : String) (at : ℕ) (hash : String) (found : List (Identity × Outcome)) (l : Ledger)
      → Moves l (settle_all jobs now repo at hash found l)
  unfolding settle_all
  settle_all-Moves repo at hash [] l = AllFollow-refl l.jobs
  settle_all-Moves repo at hash ((k, o) ∷ rest) l =
      then-Moves (settle_all jobs now repo at hash rest) (settle_all-Moves repo at hash rest) l _
        (settle_one-Moves (outcome_row repo at hash o) k l)

  pub refuse_all-Moves :
      (message : DateError → Text) (refused : List (Identity × Unadjudicable)) (l : Ledger)
      → Moves l (refuse_all jobs now message refused l)
  unfolding refuse_all
  refuse_all-Moves message [] l = AllFollow-refl l.jobs
  refuse_all-Moves message ((k, u) ∷ rest) l =
      then-Moves (refuse_all jobs now message rest) (refuse_all-Moves message rest) l _
        (elim (Option-cases (lookup k jobs)) [
          | inl e ↦ rw e tt
          | inr (job, e) ↦ rw e (fail_job-Moves job (message u.reason) now max_attempts l)
        ])
