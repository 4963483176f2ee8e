-- ===== src/Reviews/Retries/Bounded.antt =====
-- The sweeps of unposted comments: each comment that one writes is paid with an attempt.
use doug.Prelude.{
  ℕ, zero, suc, ◌+◌, ◌*◌, ◌≤◌, ◌<◌, ◌≡◌, String, true, Option, none, some, List, [], ◌∷◌, any, ◌==◌,
  nat_eq, arith, refl, ◌∙◌, Bool-cases, inl, inr, All, All-of_In, In, here, there, count_if, take,
  In-keep, In-sort_by, ltb→lt, ltb,
}
use doug.Ingest.{Job}
use doug.Reviews.Rows.{Verdict}
use doug.Reviews.Retries.{
  is_claimable, claim_pr_comment_retry, CommentAct, claim_act, record_act, perform_act,
  perform_acts, Comment, own, rival, Try, fail_try, record_try, after_reserve, repair_comment,
  retry_job, retry_jobs, Sweep, retry_unposted_comments, run_sweeps, jobs_with_unposted_pr_comment,
  is_unposted, pr_comment_max_retries, verdict_of,
}
use doug.Reviews.Retries.Spent.{
  spent, posts, Capped, IsSelected, Pays, Pays-refl, Pays-trans, record-Pays, claim-Pays, won-Pays,
  spent_at_most,
}

act-Pays :
    (act : CommentAct) (rows : List Job)
    → IsSelected act
    → Pays rows (perform_act act rows).0 (perform_act act rows).1
unfolding perform_act IsSelected claim_pr_comment_retry
act-Pays (claim_act id attempts) rows h = elim (Bool-cases (any (is_claimable id attempts) rows)) [
  | inl e ↦ rw e (won-Pays id attempts h (rival id) refl rows e)
  | inr e ↦ rw e (claim-Pays id attempts h rows)
]
act-Pays (record_act id outcome) rows h = record-Pays id outcome rows

acts-Pays :
    (acts : List CommentAct) (rows : List Job)
    → All IsSelected acts
    → Pays rows (perform_acts acts rows).0 (perform_acts acts rows).1
unfolding perform_acts
acts-Pays [] rows h = Pays-refl rows
acts-Pays (act ∷ acts) rows h =
    let step = perform_act act rows in
    let rest = perform_acts acts step.0 in
    Pays-trans rows step.0 rest.0 step.1 rest.1 (act-Pays act rows h.0) (acts-Pays acts step.0 h.1)

then_nothing : (a b c : List Job) (xs : List Comment) → Pays a b xs → Pays b c [] → Pays a c xs
then_nothing a b c xs p q = record {
  paid = λ id. omega (arith, p.paid id, q.paid id);
  capped = λ h. q.capped (p.capped h);
  same_rows = λ id. q.same_rows id ∙ p.same_rows id;
}

-- The sweeps of others, in this try, claim what they selected.
unfoldable pub IsFair : Try → Type 0
IsFair try = All IsSelected try.acts_before × All IsSelected try.acts_during

module _ (try : Try) (job : Job) where
  fail_try-Pays : (rows : List Job) → Pays rows (fail_try try job rows).0 (fail_try try job rows).1
  fail_try-Pays rows = elim (Bool-cases try.is_failure_recorded) [
    | inl e ↦ rw e (record-Pays job.id "failed:internal" rows)
    | inr e ↦ rw e (Pays-refl rows)
  ]

  record_try-Pays :
      (outcome : String) (rows : List Job) → Pays rows (record_try try job outcome rows) []
  record_try-Pays outcome rows = elim (Bool-cases try.is_recorded) [
    | inl e ↦ rw e (record-Pays job.id outcome rows)
    | inr e ↦ rw e (Pays-refl rows)
  ]

  claimed-Pays :
      IsFair try
      → job.pr_comment_attempts < pr_comment_max_retries
      → (rows : List Job)
      → let step =
          after_reserve try job (claim_pr_comment_retry job.id job.pr_comment_attempts rows) in
        Pays rows step.0 step.1
  unfolding claim_pr_comment_retry IsFair
  claimed-Pays fair below rows =
      let claimed = (claim_pr_comment_retry job.id job.pr_comment_attempts rows).0 in
      elim (Bool-cases (any (is_claimable job.id job.pr_comment_attempts) rows)) [
        | inl won ↦
            let mine = won-Pays job.id job.pr_comment_attempts below (own job.id) refl rows won in
            elim (Bool-cases try.is_ready) [
              | inl e ↦
                  let others = perform_acts try.acts_during claimed in
                  rw (won, e)
                    (Pays-trans rows claimed (record_try try job try.outcome others.0)
                      (own job.id ∷ []) others.1 mine
                      (then_nothing claimed others.0 (record_try try job try.outcome others.0)
                        others.1 (acts-Pays try.acts_during claimed fair.1)
                        (record_try-Pays try.outcome others.0)))
              | inr e ↦
                  rw (won, e)
                    (Pays-trans rows claimed (fail_try try job claimed).0 [] []
                      (claim-Pays job.id job.pr_comment_attempts below rows)
                      (fail_try-Pays claimed))
            ]
        | inr lost ↦ rw lost (claim-Pays job.id job.pr_comment_attempts below rows)
      ]

  repair-Pays :
      IsFair try
      → job.pr_comment_attempts < pr_comment_max_retries
      → (existing : Option Verdict) (rows : List Job)
      → Pays rows (repair_comment try job existing rows).0 (repair_comment try job existing rows).1
  repair-Pays fair below none rows = elim (Bool-cases try.is_recorded) [
    | inl e ↦ rw e (record-Pays job.id "skipped:no-verdict" rows)
    | inr e ↦ rw e (fail_try-Pays rows)
  ]
  repair-Pays fair below (some existing) rows = elim (Bool-cases try.is_claimed) [
    | inl e ↦ rw e (claimed-Pays fair below rows)
    | inr e ↦ rw e (fail_try-Pays rows)
  ]

  retry_job-Pays :
      IsFair try
      → job.pr_comment_attempts < pr_comment_max_retries
      → (rows : List Job) → Pays rows (retry_job try job rows).0 (retry_job try job rows).1
  unfolding retry_job IsFair
  retry_job-Pays fair below rows =
      let others = perform_acts try.acts_before rows in
      let first = acts-Pays try.acts_before rows fair.0 in
      elim (Bool-cases try.is_looked_up) [
        | inl e ↦
            let found = verdict_of job.verdict_id try.verdicts in
            rw e (
              Pays-trans rows others.0 (repair_comment try job found others.0).0 others.1
                (repair_comment try job found others.0).1 first
                (repair-Pays fair below found others.0))
        | inr e ↦ rw e (
            Pays-trans rows others.0 (fail_try try job others.0).0 others.1 [] first
              (fail_try-Pays others.0))
      ]

retry_jobs-Pays :
    (tries : ℕ → Try) (fair : (id : ℕ) → IsFair (tries id)) (jobs rows : List Job)
    → All (λ j. j.pr_comment_attempts < pr_comment_max_retries) jobs
    → Pays rows (retry_jobs tries jobs rows).0 (retry_jobs tries jobs rows).1
unfolding retry_jobs
retry_jobs-Pays tries fair [] rows h = Pays-refl rows
retry_jobs-Pays tries fair (job ∷ jobs) rows h =
    let step = retry_job (tries job.id) job rows in
    let rest = retry_jobs tries jobs step.0 in
    Pays-trans rows step.0 rest.0 step.1 rest.1
      (retry_job-Pays (tries job.id) job (fair job.id) h.0 rows)
      (retry_jobs-Pays tries fair jobs step.0 h.1)

In-take {ℓ} : {A : Type ℓ} (n : ℕ) (xs : List A) {x : A} → In x (take n xs) → In x xs
In-take zero xs m = elim m [ ]
In-take (suc n) [] m = elim m [ ]
In-take (suc n) (y ∷ xs) here = here
In-take (suc n) (y ∷ xs) (there m) = there (In-take n xs m)

below :
    (now : ℕ) (j : Job)
    → is_unposted now j ≡ true
    → ltb j.pr_comment_attempts pr_comment_max_retries ≡ true
unfolding is_unposted
below now j h = ground arith

selected_below :
    (limit now : ℕ) (rows : List Job)
    → All
        (λ j. j.pr_comment_attempts < pr_comment_max_retries)
        (jobs_with_unposted_pr_comment limit now rows)
unfolding jobs_with_unposted_pr_comment is_unposted
selected_below limit now rows = All-of_In _ _ (λ j m.
    let sorted = In-take limit _ m in
    let kept = In-keep (is_unposted now) rows (In-sort_by _ _ sorted) in
    ltb→lt _ _ (below now j kept.1))

sweep-Pays :
    (s : Sweep) (fair : (id : ℕ) → IsFair (s.tries id)) (rows : List Job)
    → Pays rows (retry_unposted_comments s rows).0 (retry_unposted_comments s rows).1
unfolding retry_unposted_comments
sweep-Pays s fair rows = retry_jobs-Pays s.tries fair _ rows (selected_below s.limit s.now rows)

run_sweeps-Pays :
    (sweeps : List Sweep) (rows : List Job)
    → All (λ s. (id : ℕ) → IsFair (s.tries id)) sweeps
    → Pays rows (run_sweeps sweeps rows).0 (run_sweeps sweeps rows).1
unfolding run_sweeps
run_sweeps-Pays [] rows h = Pays-refl rows
run_sweeps-Pays (s ∷ sweeps) rows h =
    let step = retry_unposted_comments s rows in
    let rest = run_sweeps sweeps step.0 in
    Pays-trans rows step.0 rest.0 step.1 rest.1 (sweep-Pays s h.0 rows)
      (run_sweeps-Pays sweeps step.0 h.1)

-- However many sweeps run one after the other, at any time and of any length, whatever the rendering,
-- GitHub and the ledger's writes do, and whatever claims the sweeps of other processes win in between
-- (of jobs that they selected) and other workers record: if no row has spent more than
-- `PR_COMMENT_MAX_RETRIES` attempts at first, then the comments that the sweeps write for a job, the
-- claims for it that the other sweeps win in between, each of which allows them one comment, and the
-- attempts that its row has spent before are together at most that number, for each row of the job.
pub run_sweeps_bounded :
    (sweeps : List Sweep) (rows : List Job)
    → All (λ s. (id : ℕ) → IsFair (s.tries id)) sweeps
    → Capped rows
    → (id : ℕ)
    → posts id (run_sweeps sweeps rows).1 + spent id rows
      ≤ pr_comment_max_retries * count_if (λ j. j.id == id) rows
run_sweeps_bounded sweeps rows fair capped id =
    let p = run_sweeps-Pays sweeps rows fair in
    let most = spent_at_most id (run_sweeps sweeps rows).0 (p.capped capped) in
    omega (arith, p.paid id, rw (p.same_rows id) at most)
