-- ===== src/Outcomes/Repair/RolledBack.antt =====
-- transfer_repair.py: `rollback` after `apply`.
use doug.Prelude.{
  ℕ, ◌≡◌, ◌↔◌, refl, sym, ◌∙◌, Bool, true, false, ◌&&◌, Option, some, List, [], ◌∷◌, map, length,
  keep, any, update_where, update_where_none, ◌==◌, nat_eq, All, All-of_In, In, here, In-map,
  In-any, keep-In, Bool-cases, inl, inr, if◌then◌else◌, Text, nat_beq_iff,
}
use doug.Outcomes.Rows.{OutcomeJob}
use doug.Outcomes.Queue.Worker.{Run, returned, escaped}
use doug.Outcomes.Repair.{StoredOutcome, Db, RepairRow, has}
use doug.Outcomes.Repair.Inspected.{Reports, AllReport, inspect-Reports}
use doug.Outcomes.Repair.Applied.{IsKeyed}
use doug.Outcomes.Repair.Steps.{
  of_outcome, File, no_file, unreadable, reads, Fate, commits, rolls_back, unwritten, World,
  Serialised, repend, settle_again, job_ids, inspect, undone, serialise, manifest_of, carry_out,
  after_inspect, unless_written, apply, restored, same_outcome, is_absent, put_back, restore,
  roll_back_to, rollback,
}
use doug.Outcomes.Repair.Back.{taken, update-twice, same_nat, outcomes_back, settled_again}

-- The outcomes of before, in some order, and the jobs of before, those of the repair settled without
-- their times and their error.
pub record IsRestored (before : Db) (rows : List RepairRow) (after : Db) : Type 0 where
  pub same_outcomes : (o : StoredOutcome) → In o after.outcomes ↔ In o before.outcomes
  pub jobs_settled :
      after.ledger.jobs
      ≡ update_where
          (λ j. has (job_ids rows) j.id)
          (λ j. settle_again (repend j))
          before.ledger.jobs

abbrev pub manifest_size : File → ℕ
manifest_size no_file = 0
manifest_size unreadable = 0
manifest_size (reads m) = length m

put_back-IsRestored :
    (censor_reason : Option Text → Option Text) (db : Db) (rows : List RepairRow)
    → IsKeyed db
    → All (Reports censor_reason db) rows
    → IsRestored db rows (put_back (taken db rows) (undone rows db))
unfolding put_back undone of_outcome
put_back-IsRestored censor_reason db rows k h = record {
  same_outcomes = outcomes_back db rows;
  jobs_settled =
      update-twice (λ j. has (job_ids rows) j.id) finds repend settle_again db.ledger.jobs
        (All-of_In _ db.ledger.jobs
          (λ j m. found_alike j (settled_again db rows censor_reason k h j m)));
}
  where
    finds : OutcomeJob → Bool
    finds j =
        any (λ o. any (same_outcome o) (taken db rows) && of_outcome o j)
          (put_back (taken db rows) (undone rows db)).outcomes

    found_alike :
        (j : OutcomeJob)
        → finds j ≡ has (job_ids rows) j.id
        → finds (if has (job_ids rows) j.id then repend j else j) ≡ has (job_ids rows) j.id
    found_alike j e = elim (Bool-cases (has (job_ids rows) j.id)) [
      | inl f ↦ rw f (e ∙ f)
      | inr f ↦ rw f (e ∙ f)
    ]

module _ (censor_reason : Option Text → Option Text) (isoformat : ℕ → Text)
    (fromisoformat : Text → Option ℕ) (round : (t : ℕ) → fromisoformat (isoformat t) ≡ some t) where
  restored-manifest :
      (os : List StoredOutcome)
      → restored censor_reason isoformat fromisoformat
          (map (serialise censor_reason isoformat fromisoformat) os)
        ≡ some os
  unfolding restored
  restored-manifest [] = refl
  restored-manifest (o ∷ os) = rw (round o.observed_at, restored-manifest os) refl

  -- The manifest has a row, so that `rollback` reads it back.
  rolled :
      (w : World) (ss : List Serialised) {x : Serialised}
      → In x ss
      → roll_back_to censor_reason isoformat fromisoformat (length ss) w (reads ss)
        ≡ restore w (restored censor_reason isoformat fromisoformat ss)
  rolled w [] m = elim m [ ]
  rolled w (s ∷ ss) m = rw (same_nat (length (s ∷ ss))) refl

  -- What `apply` leaves can be rolled back: `rollback`, told the size of the manifest, returns, and the
  -- database is restored.
  abbrev pub Undoes : World → Run (List RepairRow) × World → Type 0
  Undoes w (escaped, w') = Unit
  Undoes w (returned rows, w') =
      let r = rollback censor_reason isoformat fromisoformat (manifest_size w'.manifest) w' in
      ((n : ℕ) × (r.0 ≡ returned n)) × IsRestored w.db rows r.1.db

  carried-Undoes :
      (fate : Fate) (w : World) (rows : List RepairRow)
      → IsKeyed w.db
      → All (Reports censor_reason w.db) rows
      → Undoes w (carry_out censor_reason isoformat fromisoformat fate w rows)
  unfolding rollback manifest_of
  carried-Undoes (unwritten left) w rows k h = tt
  carried-Undoes rolls_back w [] k h = tt
  carried-Undoes rolls_back w (r ∷ rows) k h = tt
  carried-Undoes commits w [] k h = (
    (0, refl),
    record {
      same_outcomes = λ o. (λ m. m, λ m. m);
      jobs_settled = sym (
          update_where_none (λ j. false) (λ j. settle_again (repend j)) w.db.ledger.jobs
            (All-of_In _ w.db.ledger.jobs (λ j m. refl)));
    },
  )
  carried-Undoes commits w (r ∷ rows) k h =
      let (o, m, same, t, job, one) = h.0 in
      let kept = taken w.db (r ∷ rows) in
      let ser = serialise censor_reason isoformat fromisoformat in
      let w' : World = record { db = undone (r ∷ rows) w.db; manifest = reads (map ser kept) } in
      let named : has (map (λ x. x.outcome_id) (r ∷ rows)) o.id ≡ true =
        In-any (λ x. x == o.id) here ((nat_beq_iff r.outcome_id o.id).1 (sym same)) in
      let inside : In (ser o) (map ser kept) =
        In-map ser (keep-In (λ x. has (map (λ y. y.outcome_id) (r ∷ rows)) x.id) m named) in
      rw (rolled w' (map ser kept) inside, restored-manifest kept)
        (
          (length (keep (is_absent (undone (r ∷ rows) w.db).outcomes) kept), refl),
          put_back-IsRestored censor_reason w.db (r ∷ rows) k h,
        )

  inspected-Undoes :
      (fate : Fate) (expected : ℕ) (w : World) (found : Run (List RepairRow))
      → IsKeyed w.db
      → AllReport censor_reason w.db found
      → Undoes w (after_inspect censor_reason isoformat fromisoformat expected fate w found)
  inspected-Undoes fate n w escaped k h = tt
  inspected-Undoes fate n w (returned rows) k h = elim (Bool-cases (length rows == n)) [
    | inr f ↦ rw f tt
    | inl f ↦ rw f (carried-Undoes fate w rows k h)
  ]

  manifest-Undoes :
      (fate : Fate) (expected : ℕ) (w : World) (m : File)
      → IsKeyed w.db
      → Undoes w (unless_written censor_reason isoformat fromisoformat expected fate w m)
  manifest-Undoes fate n w (reads m) k = tt
  manifest-Undoes fate n w unreadable k = tt
  manifest-Undoes fate n w no_file k =
      inspected-Undoes fate n w (inspect censor_reason w.db) k (inspect-Reports censor_reason w.db)

  -- Where `fromisoformat` reads back what `isoformat` writes and ids are distinct: after an `apply` that
  -- returns, `rollback` with the size of the manifest returns too, the outcomes are just those of
  -- before, and the jobs are those of before, but for the repaired ones, which are done without start
  -- time, finish time and error.
  pub apply-Undoes :
      (expected : ℕ) (fate : Fate) (w : World)
      → IsKeyed w.db
      → Undoes w (apply censor_reason isoformat fromisoformat expected fate w)
  unfolding apply
  apply-Undoes expected fate w k = manifest-Undoes fate expected w w.manifest k
