-- ===== src/Outcomes/Queue/Balance.antt =====
-- outcome_queue.py: the outcomes that the lane has published and the jobs that it has finished.
use doug.Prelude.{
  ℕ, ◌≡◌, refl, ◌∙◌, sym, String, true, false, Option, none, some, List, [], ◌∷◌, ◌++◌, ◌==◌,
  nat_eq, arith, length, count_if, length-append, Bool-cases, Option-cases, inl, inr, Text,
  count_if_same, count_if_gained,
}
use doug.Outcomes.Rows.{OutcomeJob, Outcome, Unadjudicable, DateError}
use doug.Outcomes.Queue.{RepositoryKey, OutcomeRow, Ledger, is_done, max_attempts}
use doug.Outcomes.Queue.Settle.{
  claim_row, to_claim, claim_rows, held_by, fail_row, update_one, fail_job, fail_jobs, commit,
  finish_row, outcome_row, with_job, settle_one, settle_all, refuse_all, ◌>>=◌,
}
use doug.Outcomes.Queue.Dictionaries.{Identity, lookup}

abbrev pub finished : Ledger → ℕ
finished l = count_if (λ j. is_done j.status) l.jobs

-- The published outcomes are as many as the finished jobs.
unfoldable pub IsBalanced : Ledger → Type 0
IsBalanced l = length l.outcomes ≡ finished l

-- The outcomes of a ledger exceed its finished jobs by as much as before, or the transaction fails.
abbrev pub IsBalancedIf : Option Ledger → Type 0
IsBalancedIf none = Unit
IsBalancedIf (some l) = IsBalanced l

fail_row_done :
    (error : Text) (now cap : ℕ) (j : OutcomeJob)
    → is_done (fail_row error now cap j).status ≡ false
unfolding fail_row
fail_row_done error now cap j = ground arith

held_by_done : (job j : OutcomeJob) → held_by job j ≡ true → is_done j.status ≡ false
unfolding held_by
held_by_done job j h = ground arith

fail_job-IsBalanced :
    (job : OutcomeJob) (error : Text) (now cap : ℕ) (l : Ledger)
    → IsBalanced l
    → IsBalancedIf (fail_job job error now cap l)
unfolding fail_job update_one IsBalanced
fail_job-IsBalanced job error now cap l b = elim (Bool-cases (count_if (held_by job) l.jobs == 1)) [
  | inl e ↦ rw e (
      b
      ∙ sym (
          count_if_same _ (held_by job) (fail_row error now cap)
            (λ j h. fail_row_done error now cap j ∙ sym (held_by_done job j h)) l.jobs))
  | inr e ↦ rw e tt
]

pub then-IsBalanced :
    (f : Ledger → Option Ledger)
    → ((l : Ledger) → IsBalanced l → IsBalancedIf (f l))
    → (l : Option Ledger) → IsBalancedIf l
    → IsBalancedIf (l >>= f)
then-IsBalanced f keeps none b = tt
then-IsBalanced f keeps (some l) b = keeps l b

pub fail_jobs-IsBalanced :
    (jobs : List OutcomeJob) (error : Text) (now cap : ℕ) (l : Ledger)
    → IsBalanced l
    → IsBalancedIf (fail_jobs jobs error now cap l)
unfolding fail_jobs
fail_jobs-IsBalanced [] error now cap l b = b
fail_jobs-IsBalanced (job ∷ jobs) error now cap l b =
    then-IsBalanced (fail_jobs jobs error now cap) (fail_jobs-IsBalanced jobs error now cap) _
      (fail_job-IsBalanced job error now cap l b)

pub commit-IsBalanced {ℓ} :
    {A : Type ℓ} (a : A) (l : Ledger) (written : Option Ledger)
    → IsBalanced l
    → IsBalancedIf written
    → IsBalanced (commit a l written).1
commit-IsBalanced a l none b w = b
commit-IsBalanced a l (some l') b w = w

finish_row_done : (now : ℕ) (j : OutcomeJob) → is_done (finish_row now j).status ≡ true
unfolding finish_row
finish_row_done now j = refl

-- An insert and the update that must meet one running row.
finish-IsBalanced :
    (row : OutcomeRow) (now : ℕ) (job : OutcomeJob) (l : Ledger)
    → IsBalanced l
    → IsBalancedIf
        (update_one job (finish_row now) (record l { outcomes = l.outcomes ++ row ∷ [] }))
unfolding update_one IsBalanced
finish-IsBalanced row now job l b = elim (Bool-cases (count_if (held_by job) l.jobs == 1)) [
  | inl e ↦
      let one : count_if (held_by job) l.jobs ≡ 1 = ground arith in
      rw e (
        omega (
          arith,
          b,
          one,
          length-append l.outcomes (row ∷ []),
          count_if_gained (λ j. is_done j.status) (held_by job) (finish_row now)
              (λ j h. (held_by_done job j h, finish_row_done now j)) l.jobs,
        ))
  | inr e ↦ rw e tt
]

module _ (jobs : List (Identity × OutcomeJob)) (now : ℕ) where
  settle_one-IsBalanced :
      (row : OutcomeRow) (k : Identity) (l : Ledger)
      → IsBalanced l
      → IsBalancedIf (settle_one jobs now row k l)
  unfolding settle_one
  settle_one-IsBalanced row k l b = elim (Option-cases (lookup k jobs)) [
    | inl e ↦ rw e tt
    | inr (job, e) ↦ rw e (finish-IsBalanced row now job l b)
  ]

  pub settle_all-IsBalanced :
      (repo : String) (at : ℕ) (hash : String) (found : List (Identity × Outcome)) (l : Ledger)
      → IsBalanced l
      → IsBalancedIf (settle_all jobs now repo at hash found l)
  unfolding settle_all
  settle_all-IsBalanced repo at hash [] l b = b
  settle_all-IsBalanced repo at hash ((k, o) ∷ rest) l b =
      then-IsBalanced (settle_all jobs now repo at hash rest)
        (settle_all-IsBalanced repo at hash rest) _
        (settle_one-IsBalanced (outcome_row repo at hash o) k l b)

  refuse_one-IsBalanced :
      (error : Text) (job : Option OutcomeJob) (l : Ledger)
      → IsBalanced l
      → IsBalancedIf (with_job job (λ j. fail_job j error now max_attempts l))
  refuse_one-IsBalanced error none l b = tt
  refuse_one-IsBalanced error (some job) l b = fail_job-IsBalanced job error now max_attempts l b

  pub refuse_all-IsBalanced :
      (message : DateError → Text) (refused : List (Identity × Unadjudicable)) (l : Ledger)
      → IsBalanced l
      → IsBalancedIf (refuse_all jobs now message refused l)
  unfolding refuse_all
  refuse_all-IsBalanced message [] l b = b
  refuse_all-IsBalanced message ((k, u) ∷ rest) l b =
      then-IsBalanced (refuse_all jobs now message rest) (refuse_all-IsBalanced message rest) _
        (refuse_one-IsBalanced (message u.reason) (lookup k jobs) l b)

claim_row_done : (now : ℕ) (j : OutcomeJob) → is_done (claim_row now j).status ≡ false
unfolding claim_row
claim_row_done now j = refl

pub claim_rows-IsBalanced :
    (k : RepositoryKey) (now : ℕ) (ids : List ℕ) (l : Ledger)
    → IsBalanced l
    → IsBalanced (claim_rows k now ids l).1
unfolding claim_rows IsBalanced
claim_rows-IsBalanced k now [] l b = b
claim_rows-IsBalanced k now (i ∷ is) l b =
    elim (Bool-cases (count_if (to_claim (i ∷ is)) l.jobs == length (i ∷ is))) [
      | inl e ↦ rw e (
          b
          ∙ sym (
              count_if_same _ (to_claim (i ∷ is)) (claim_row now)
                (λ j h. ground (arith, claim_row_done now j)) l.jobs))
      | inr e ↦ rw e b
    ]
