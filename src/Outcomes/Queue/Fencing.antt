-- ===== src/Outcomes/Queue/Fencing.antt =====
-- outcome_queue.py: the generation of a claim fences its old holder.
use doug.Prelude.{
  ℕ, ◌<◌, ◌≡◌, ◌≢◌, ◌⊎◌, refl, ◌∙◌, String, Bool, false, none, some, List, [], ◌∷◌, map, ◌==◌,
  nat_eq, arith, length, count_if, all, Distinct, All, In, here, there, Bool-cases, inl, inr, Text,
}
use doug.Outcomes.Rows.{OutcomeJob, Unadjudicable, Adjudication, DateError}
use doug.Outcomes.Queue.{RepositoryKey, ClaimedBatch, Ledger, lost_claim, value_error, max_attempts}
use doug.Outcomes.Queue.Settle.{
  claim_row, to_claim, claim_rows, claim_repository, stalled, reclaim_row, reclaim_stalled,
  expected_generation, is_current, claims_are_current, fail_batch, settle_batch,
}
use doug.Outcomes.Queue.Dictionaries.{dict_from, accounts_for, identity, outcome_identity}
use doug.Outcomes.Queue.Op.{Op, claim_op, reclaim_op, fail_op, settle_op, apply, run}
use doug.Outcomes.Queue.Advance.{
  Follows, AllFollow, AllFollow-refl, AllFollow-trans, update_where-AllFollow, follower, then-Moves,
  fail_jobs-Moves, settle_all-Moves, refuse_all-Moves, commit-Moves,
}

claim_row-Follows : (now : ℕ) (j : OutcomeJob) → Follows j (claim_row now j)
unfolding claim_row
claim_row-Follows now j = (refl, omega arith)

reclaim_row-Follows : (j : OutcomeJob) → Follows j (reclaim_row j)
unfolding reclaim_row
reclaim_row-Follows j = (refl, omega arith)

claim_rows-AllFollow :
    (k : RepositoryKey) (now : ℕ) (ids : List ℕ) (l : Ledger)
    → AllFollow l.jobs (claim_rows k now ids l).1.jobs
unfolding claim_rows
claim_rows-AllFollow k now [] l = AllFollow-refl l.jobs
claim_rows-AllFollow k now (i ∷ is) l =
    elim (Bool-cases (count_if (to_claim (i ∷ is)) l.jobs == length (i ∷ is))) [
      | inl e ↦ rw e (
          update_where-AllFollow (to_claim (i ∷ is)) (claim_row now) (claim_row-Follows now) l.jobs)
      | inr e ↦ rw e (AllFollow-refl l.jobs)
    ]

fail_batch-AllFollow :
    (batch : ClaimedBatch) (error : Text) (now cap : ℕ) (l : Ledger)
    → AllFollow l.jobs (fail_batch batch error now cap l).1.jobs
unfolding fail_batch
fail_batch-AllFollow batch error now cap l = elim (Bool-cases (claims_are_current l batch)) [
  | inl e ↦ rw e (commit-Moves (length batch.jobs) l _ (fail_jobs-Moves batch.jobs error now cap l))
  | inr e ↦ rw e (AllFollow-refl l.jobs)
]

module _ (message : DateError → Text) where
  settle_batch-AllFollow :
      (batch : ClaimedBatch) (a : Adjudication) (repo : String) (at : ℕ) (hash : String) (now : ℕ)
      (l : Ledger)
      → AllFollow l.jobs (settle_batch message batch a repo at hash now l).1.jobs
  unfolding settle_batch
  settle_batch-AllFollow batch a repo at hash now l =
      let jobs = dict_from identity (λ j. j) [] batch.jobs in
      let classified = dict_from outcome_identity (λ o. o) [] a.outcomes in
      let refused = dict_from (λ (u : Unadjudicable). identity u.job) (λ u. u) [] a.unadjudicable in
      elim (Bool-cases (accounts_for jobs classified refused)) [
        | inl e ↦ elim (Bool-cases (claims_are_current l batch)) [
          | inl c ↦
              rw (e, c)
                (commit-Moves _ l _ (
                  then-Moves _ (refuse_all-Moves jobs now message refused) l _
                    (settle_all-Moves jobs now repo at hash classified l)))
          | inr c ↦ rw (e, c) (AllFollow-refl l.jobs)
        ]
        | inr e ↦ rw e (AllFollow-refl l.jobs)
      ]

  apply-AllFollow : (op : Op) (l : Ledger) → AllFollow l.jobs (apply message op l).jobs
  unfolding apply claim_repository reclaim_stalled
  apply-AllFollow (claim_op k now) l = claim_rows-AllFollow k now _ l
  apply-AllFollow (reclaim_op lease now) l =
      update_where-AllFollow (stalled lease now) reclaim_row reclaim_row-Follows l.jobs
  apply-AllFollow (fail_op batch error now) l = fail_batch-AllFollow batch error now max_attempts l
  apply-AllFollow (settle_op batch a repo at hash now) l =
      settle_batch-AllFollow batch a repo at hash now l

  run-AllFollow : (ops : List Op) (l : Ledger) → AllFollow l.jobs (run message ops l).jobs
  unfolding run
  run-AllFollow [] l = AllFollow-refl l.jobs
  run-AllFollow (op ∷ ops) l =
      AllFollow-trans l.jobs (apply message op l).jobs (run message ops (apply message op l)).jobs
        (apply-AllFollow op l) (run-AllFollow ops (apply message op l))

-- The generation that a batch expects of one of its jobs.
expected_generation-none :
    (id : ℕ) (js : List OutcomeJob)
    → All (λ n. id ≢ n) (map (λ j. j.id) js)
    → expected_generation id js ≡ none
expected_generation-none id [] h = refl
expected_generation-none id (j ∷ js) h = elim (Bool-cases (j.id == id)) [
  | inl e ↦ let same : id ≡ j.id = ground arith in absurd (h.0 same)
  | inr e ↦ rw (expected_generation-none id js h.1, e) refl
]

expected_generation-own :
    (js : List OutcomeJob) {j : OutcomeJob}
    → Distinct (map (λ i. i.id) js)
    → In j js
    → expected_generation j.id js ≡ some j.claim_generation
expected_generation-own [] d m = elim m [ ]
expected_generation-own (j ∷ js) d here = rw (expected_generation-none j.id js d.0) (ground arith)
expected_generation-own (i ∷ js) {j} d (there m) =
    rw (expected_generation-own js {j = j} d.1 m) refl

all-false :
    (p : OutcomeJob → Bool) {x : OutcomeJob} (xs : List OutcomeJob)
    → In x xs
    → p x ≡ false
    → all p xs ≡ false
all-false p [] m e = elim m [ ]
all-false p (y ∷ ys) here e = rw e refl
all-false p (y ∷ ys) (there m) e = ground (arith, all-false p ys m e)

stale-not_current :
    (l : Ledger) (batch : ClaimedBatch) (j r : OutcomeJob)
    → Distinct (map (λ i. i.id) batch.jobs)
    → In j batch.jobs
    → In r l.jobs
    → j.id ≡ r.id
    → j.claim_generation < r.claim_generation
    → claims_are_current l batch ≡ false
unfolding claims_are_current
stale-not_current l batch j r d m n same newer =
    let expected : expected_generation r.id batch.jobs ≡ some j.claim_generation =
      rw (← same) (expected_generation-own batch.jobs d m) in
    let apart : (r.claim_generation == j.claim_generation) ≡ false = ground arith in
    let it : is_current batch.jobs r ≡ false = rw (expected, is_current) (ground arith) in
    ground (arith, all-false (is_current batch.jobs) l.jobs n it)

-- Whatever the holder of the batch sends, it writes nothing.
pub record IsShutOut (message : DateError → Text) (batch : ClaimedBatch) (l : Ledger) : Type 0 where
  pub no_fail : (error : Text) (now cap : ℕ) → fail_batch batch error now cap l ≡ (lost_claim, l)
  pub no_settle :
      (a : Adjudication) (repo : String) (at : ℕ) (hash : String) (now : ℕ)
      → (settle_batch message batch a repo at hash now l ≡ (lost_claim, l))
        ⊎ (settle_batch message batch a repo at hash now l ≡ (value_error, l))

not_current-IsShutOut :
    (message : DateError → Text) (batch : ClaimedBatch) (l : Ledger)
    → claims_are_current l batch ≡ false
    → IsShutOut message batch l
unfolding fail_batch settle_batch
not_current-IsShutOut message batch l e = record {
  no_fail = λ error now cap. rw e refl;
  no_settle = λ a repo at hash now.
      elim (Bool-cases (
        accounts_for (dict_from identity (λ j. j) [] batch.jobs)
          (dict_from outcome_identity (λ o. o) [] a.outcomes)
          (dict_from (λ (u : Unadjudicable). identity u.job) (λ u. u) [] a.unadjudicable))) [
            | inl f ↦ inl (rw (f, e) refl)
            | inr f ↦ inr (rw f refl)
          ];
}

-- Once the ledger shows a job of a batch under a later generation than the batch holds, as it does
-- after the lease has expired and the job was claimed again, no sequence of transactions lets the
-- holder of that batch fail or settle it: both leave the ledger as it is. The ids of the batch's jobs
-- are taken to be distinct.
pub stale_batch-IsShutOut :
    (message : DateError → Text) (ops : List Op) (l : Ledger) (batch : ClaimedBatch)
    (j r : OutcomeJob)
    → Distinct (map (λ i. i.id) batch.jobs)
    → In j batch.jobs
    → In r l.jobs
    → j.id ≡ r.id
    → j.claim_generation < r.claim_generation
    → IsShutOut message batch (run message ops l)
stale_batch-IsShutOut message ops l batch j r d m n same newer =
    let after = run message ops l in
    let (k, in_after, follows) = follower l.jobs after.jobs (run-AllFollow message ops l) n in
    not_current-IsShutOut message batch after (
      stale-not_current after batch j k d m in_after (same ∙ follows.0)
        (omega (arith, newer, follows.1)))
