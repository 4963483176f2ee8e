-- ===== src/Outcomes/Repair/Applied.antt =====
-- transfer_repair.py: what `apply` undoes, and what it leaves when it fails.
use doug.Prelude.{
  ℕ, ◌≡◌, ◌⊎◌, refl, ap, sym, ◌∙◌, true, not, Option, none, some, List, [], ◌∷◌, map, length,
  any-true, ◌==◌, nat_eq, All, All-at, All-of_In, In, here, there, In-cases, In-unique, In-keep,
  keep-In, In-update_where, Distinct, Bool-cases, Option-cases, inl, inr, Text, nat_beq_iff,
}
use mathlib.Core.Path.{subst}
use mathlib.Core.Bool.{false≢true}
use doug.Prelude.{
  Each, none_left, and_each, Each-update_where, keep, In-map, In-any, ◌≢◌, if◌then◌else◌, arith,
}
use doug.Outcomes.Rows.{OutcomeJob, pending}
use doug.Outcomes.Queue.Worker.{Run, returned, escaped}
use doug.Outcomes.Repair.{StoredOutcome, Db, RepairRow, has}
use doug.Outcomes.Repair.Inspected.{
  IsTransferred, Reports, AllReport, inspect-Reports, IsDue, inspect-Finds,
}
use doug.Outcomes.Repair.Steps.{
  of_outcome, File, no_file, unreadable, reads, Fate, commits, rolls_back, unwritten, World, repend,
  job_ids, inspect, undone, carry_out, after_inspect, unless_written, apply,
}

-- The primary keys of the two tables.
pub record IsKeyed (db : Db) : Type 0 where
  pub outcome_ids : Distinct (map (λ o. o.id) db.outcomes)
  pub job_ids_distinct : Distinct (map (λ j. j.id) db.ledger.jobs)

pub has-In : (ids : List ℕ) (id : ℕ) → has ids id ≡ true → In id ids
has-In ids id h =
    let (i, m, e) = any-true (λ i. i == id) ids h in
    subst (λ n. In n ids) ((nat_beq_iff i id).0 e) m

-- The row of a report that names an outcome, and one that names a job.
pub row_named :
    (rows : List RepairRow) (id : ℕ)
    → In id (map (λ r. r.outcome_id) rows)
    → (r : RepairRow) × In r rows × (r.outcome_id ≡ id)
row_named [] id m = elim m [ ]
row_named (r ∷ rows) id m = elim (In-cases m) [
  | inl e ↦ (r, here, sym e)
  | inr n ↦ let (x, k, e) = row_named rows id n in (x, there k, e)
]

pub job_named :
    (rows : List RepairRow) (id : ℕ)
    → In id (job_ids rows)
    → (r : RepairRow) × In r rows × (r.job_id ≡ some id)
job_named [] id m = elim m [ ]
job_named (r ∷ rows) id m = elim (Option-cases r.job_id) [
  | inl e ↦ let (x, k, f) = job_named rows id (rw e at m) in (x, there k, f)
  | inr (j, e) ↦ elim (In-cases (rw e at m)) [
    | inl same ↦ (r, here, e ∙ ap some (sym same))
    | inr n ↦ let (x, k, f) = job_named rows id n in (x, there k, f)
  ]
]

-- The job that the report names for an outcome.
abbrev pub IsNamed : List RepairRow → OutcomeJob → Type 0
IsNamed rows j = (r : RepairRow) × In r rows × (r.job_id ≡ some j.id)

-- A job that the report names is pending again, unstarted and unfinished; any other stays.
pub IsRepended : List RepairRow → OutcomeJob → OutcomeJob → Type 0
IsRepended rows j k =
    (IsNamed rows j
      × (k ≡ record j { status = pending; started_at = none; finished_at = none; error = none }))
    ⊎ (¬ (IsNamed rows j) × (k ≡ j))

named-job_ids :
    (rows : List RepairRow) (r : RepairRow) (id : ℕ)
    → In r rows
    → r.job_id ≡ some id
    → has (job_ids rows) id ≡ true
named-job_ids [] r id m e = elim m [ ]
named-job_ids (x ∷ rows) r id m e = elim (In-cases m) [
  | inl same ↦
      let it : x.job_id ≡ some id = ap (λ (y : RepairRow). y.job_id) (sym same) ∙ e in
      let hit : has (id ∷ job_ids rows) id ≡ true =
        In-any (λ i. i == id) here ((nat_beq_iff id id).1 refl) in
      rw it hit
  | inr n ↦
      let later = named-job_ids rows r id n e in
      elim (Option-cases x.job_id) [
        | inl f ↦ rw f later
        | inr (i, f) ↦ rw f (elim (Bool-cases (i == id)) [ inl g ↦ rw g refl | inr g ↦ rw g later ])
      ]
]

repend-IsRepended :
    (rows : List RepairRow) (j : OutcomeJob)
    → IsRepended rows j (if has (job_ids rows) j.id then repend j else j)
unfolding IsRepended
repend-IsRepended rows j = elim (Bool-cases (has (job_ids rows) j.id)) [
  | inl e ↦ rw e (inl (job_named rows j.id (has-In (job_ids rows) j.id e), refl))
  | inr e ↦
      rw e (
        inr ((λ named. false≢true (sym e ∙ named-job_ids rows named.0 j.id named.1 named.2)), refl))
]

module _ (censor_reason : Option Text → Option Text) where
  -- A job as `apply` leaves it: as it was, or pending again for a transferred outcome of its own.
  abbrev pub Repended : Db → List OutcomeJob → OutcomeJob → Type 0
  Repended db after j =
      In j after
      ⊎ (In (repend j) after
          × ((o : StoredOutcome) × In o db.outcomes
              × IsTransferred censor_reason db o
              × (of_outcome o j ≡ true)))

  -- What `apply` owes.
  pub record IsRepaired (before after : Db) (rows : List RepairRow) : Type 0 where
    pub reported : All (Reports censor_reason before) rows
    pub only_transferred :
        All (λ o. In o after.outcomes ⊎ IsTransferred censor_reason before o) before.outcomes
    pub nothing_new : All (λ o. In o before.outcomes) after.outcomes
    pub gone : All (λ r. All (λ o. o.id ≢ r.outcome_id) after.outcomes) rows
    pub none_due : All (λ o. ¬ (IsDue censor_reason before o)) after.outcomes
    pub jobs_back : Each (IsRepended rows) before.ledger.jobs after.ledger.jobs
    pub jobs_follow : All (Repended before after.ledger.jobs) before.ledger.jobs

  -- The report names every outcome that is due.
  abbrev FindsAll : Db → List RepairRow → Type 0
  FindsAll db rows =
      (o : StoredOutcome)
      → In o db.outcomes
      → IsDue censor_reason db o
      → In o.id (map (λ r. r.outcome_id) rows)

  undone-IsRepaired :
      (db : Db) (rows : List RepairRow)
      → IsKeyed db
      → All (Reports censor_reason db) rows
      → FindsAll db rows
      → IsRepaired db (undone rows db) rows
  unfolding undone
  undone-IsRepaired db rows k h finds = record {
    reported = h;
    gone = All-of_In _ rows (λ r n.
        All-of_In _ _ (λ o m same.
          missed o m (subst (λ i. In i ids) (sym same) (In-map (λ x. x.outcome_id) n))));
    none_due =
        All-of_In _ _
          (λ o m due. missed o m (finds o (In-keep (λ x. not (has ids x.id)) db.outcomes m).0 due));
    jobs_back =
        Each-update_where (IsRepended rows) (λ j. has (job_ids rows) j.id) repend
          (repend-IsRepended rows) db.ledger.jobs;
    only_transferred = All-of_In _ db.outcomes outcome_left;
    nothing_new = All-of_In _ _ (λ o m. (In-keep (λ x. not (has ids x.id)) db.outcomes m).0);
    jobs_follow = All-of_In _ db.ledger.jobs job_left;
  }
    where
      ids : List ℕ
      ids = map (λ r. r.outcome_id) rows

      missed :
          (o : StoredOutcome) → In o (keep (λ x. not (has ids x.id)) db.outcomes) → In o.id ids → ⊥
      missed o m n =
          let left = (In-keep (λ x. not (has ids x.id)) db.outcomes m).1 in
          let hit : has ids o.id ≡ true =
            In-any (λ i. i == o.id) n ((nat_beq_iff o.id o.id).1 refl) in
          ground arith

      outcome_left :
          (o : StoredOutcome)
          → In o db.outcomes
          → In o (undone rows db).outcomes ⊎ IsTransferred censor_reason db o
      outcome_left o m = elim (Bool-cases (has ids o.id)) [
        | inr e ↦ inl (keep-In (λ x. not (has ids x.id)) m (rw e refl))
        | inl e ↦
            let (r, n, f) = row_named rows o.id (has-In ids o.id e) in
            let (x, mx, same, t, job, one) = All-at (Reports censor_reason db) h n in
            let it : x ≡ o = In-unique (λ y. y.id) db.outcomes k.outcome_ids mx m (same ∙ f) in
            inr (subst (IsTransferred censor_reason db) it t)
      ]

      job_left : (j : OutcomeJob) → In j db.ledger.jobs → Repended db (undone rows db).ledger.jobs j
      job_left j m = elim (Bool-cases (has (job_ids rows) j.id)) [
        | inr e ↦ inl (rw e at (In-update_where (λ x. has (job_ids rows) x.id) repend m))
        | inl e ↦
            let (r, n, f) = job_named rows j.id (has-In (job_ids rows) j.id e) in
            let (o, mo, same, t, job, one) = All-at (Reports censor_reason db) h n in
            let (i, mi, same_job, of_it) = job j.id f in
            let it : i ≡ j =
              In-unique (λ y. y.id) db.ledger.jobs k.job_ids_distinct mi m same_job in
            inr (
              rw e at (In-update_where (λ x. has (job_ids rows) x.id) repend m),
              (o, mo, t, subst (λ y. of_outcome o y ≡ true) it of_it),
            )
      ]

  -- Why `apply` raises without a trace: there is a manifest, the inspection raises or finds another
  -- number of rows, or the database rolls back.
  abbrev pub IsRefused : ℕ → Fate → World → Type 0
  IsRefused expected fate w =
      (w.manifest ≢ no_file)
      ⊎ (inspect censor_reason w.db ≡ escaped)
      ⊎ ((rows : List RepairRow) × (inspect censor_reason w.db ≡ returned rows)
          × (length rows ≢ expected))
      ⊎ (fate ≡ rolls_back)

  -- What `apply` comes to: all of the repair, or nothing.
  abbrev pub IsAllOrNothing : ℕ → Fate → World → Run (List RepairRow) × World → Type 0
  IsAllOrNothing expected fate w (escaped, w') =
      ((w' ≡ w) × IsRefused expected fate w)
      ⊎ ((expected ≡ 0) × (fate ≡ rolls_back) × (w' ≡ record w { manifest = reads [] }))
      ⊎ ((left : File) × (fate ≡ unwritten left) × (w' ≡ record w { manifest = left }))
  IsAllOrNothing expected fate w (returned rows, w') =
      (length rows ≡ expected) × (w.manifest ≡ no_file) × IsRepaired w.db w'.db rows

  idle_jobs : (jobs : List OutcomeJob) → Each (IsRepended []) jobs jobs
  unfolding IsRepended
  idle_jobs [] = none_left
  idle_jobs (j ∷ jobs) = and_each (inr ((λ named. elim (named.1) [ ]), refl)) (idle_jobs jobs)

  idle-IsRepaired : (db : Db) → FindsAll db [] → IsRepaired db db []
  idle-IsRepaired db finds = record {
    reported = tt;
    gone = tt;
    none_due = All-of_In _ db.outcomes (λ o m due. elim (finds o m due) [ ]);
    jobs_back = idle_jobs db.ledger.jobs;
    only_transferred = All-of_In _ db.outcomes (λ o m. inl m);
    nothing_new = All-of_In _ db.outcomes (λ o m. m);
    jobs_follow = All-of_In _ db.ledger.jobs (λ j m. inl m);
  }

  module _ (isoformat : ℕ → Text) (fromisoformat : Text → Option ℕ) where
    carried-IsAllOrNothing :
        (fate : Fate) (expected : ℕ) (w : World) (rows : List RepairRow)
        → IsKeyed w.db
        → w.manifest ≡ no_file
        → length rows ≡ expected
        → All (Reports censor_reason w.db) rows
        → FindsAll w.db rows
        → IsAllOrNothing expected fate w
            (carry_out censor_reason isoformat fromisoformat fate w rows)
    carried-IsAllOrNothing (unwritten left) n w rows k e size h f = inr (inr (left, refl, refl))
    carried-IsAllOrNothing commits n w [] k e size h f = (size, e, idle-IsRepaired w.db f)
    carried-IsAllOrNothing rolls_back n w [] k e size h f = inr (inl (sym size, refl, refl))
    carried-IsAllOrNothing commits n w (r ∷ rows) k e size h f =
        (size, e, undone-IsRepaired w.db (r ∷ rows) k h f)
    carried-IsAllOrNothing rolls_back n w (r ∷ rows) k e size h f =
        inl (ap (λ m. record w { manifest = m }) (sym e), inr (inr (inr refl)))

    inspected-IsAllOrNothing :
        (fate : Fate) (expected : ℕ) (w : World) (found : Run (List RepairRow))
        → IsKeyed w.db
        → w.manifest ≡ no_file
        → inspect censor_reason w.db ≡ found
        → AllReport censor_reason w.db found
        → IsAllOrNothing expected fate w
            (after_inspect censor_reason isoformat fromisoformat expected fate w found)
    inspected-IsAllOrNothing fate n w escaped k e r h = inl (refl, inr (inl r))
    inspected-IsAllOrNothing fate n w (returned rows) k e r h =
        elim (Bool-cases (length rows == n)) [
          | inr f ↦
              let other : length rows ≢ n =
                λ q. false≢true (sym f ∙ (nat_beq_iff (length rows) n).1 q) in
              rw f (inl (refl, inr (inr (inl (rows, r, other)))))
          | inl f ↦ rw f (
              carried-IsAllOrNothing fate n w rows k e ((nat_beq_iff (length rows) n).0 f) h
                (inspect-Finds censor_reason w.db r))
        ]

    manifest-IsAllOrNothing :
        (fate : Fate) (expected : ℕ) (w : World) (m : File)
        → IsKeyed w.db
        → w.manifest ≡ m
        → IsAllOrNothing expected fate w
            (unless_written censor_reason isoformat fromisoformat expected fate w m)
    manifest-IsAllOrNothing fate n w (reads m) k e =
        inl (refl, inl (λ q. let clash : reads m ≡ no_file = sym e ∙ q in ground arith))
    manifest-IsAllOrNothing fate n w unreadable k e =
        inl (refl, inl (λ q. let clash : unreadable ≡ no_file = sym e ∙ q in ground arith))
    manifest-IsAllOrNothing fate n w no_file k e =
        inspected-IsAllOrNothing fate n w (inspect censor_reason w.db) k e refl
          (inspect-Reports censor_reason w.db)

    -- On tables with distinct ids, `apply` either does all of the repair or raises. Where it raises, the
    -- database is as it was. So is the manifest, and then there was one before, or the inspection
    -- raises or finds another number of rows than expected, or the database rolls back; but where it
    -- rolls back and no outcome was expected, a manifest with no rows may stay, and where writing the
    -- manifest fails, what that write leaves stays. Where it returns, there was no manifest, the report has as many rows as expected, and
    -- each reported outcome is gone; no censored outcome with both its ids is left that was censored
    -- as unreachable while the registration that the outcome lane would read its repository through
    -- now is another installation's; an outcome is gone only for that reason, and none is new; and
    -- exactly the jobs that the report names, each the job of such an outcome, are pending again, in
    -- their places, without start time, finish time and error, while every other job is as it was.
    pub apply-IsAllOrNothing :
        (expected : ℕ) (fate : Fate) (w : World)
        → IsKeyed w.db
        → IsAllOrNothing expected fate w
            (apply censor_reason isoformat fromisoformat expected fate w)
    unfolding apply
    apply-IsAllOrNothing expected fate w k =
        manifest-IsAllOrNothing fate expected w w.manifest k refl
