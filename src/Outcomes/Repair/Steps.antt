-- ===== src/Outcomes/Repair/Steps.antt =====
-- transfer_repair.py: `inspect`, `apply` and `rollback`.
use doug.Prelude.{
  ℕ, Bool, true, false, ◌&&◌, ◌||◌, not, Option, none, some, List, [], ◌∷◌, ◌++◌, map, ltb, leb,
  ◌==◌, nat_eq, string_eq, option_eq, list_eq, if◌then◌else◌, length, any, keep, update_where,
  sort_by, Text, codes,
}
use doug.Outcomes.Rows.{OutcomeJob, pending, done}
use doug.Outcomes.Queue.Worker.{Run, returned, escaped}
use doug.Outcomes.Repair.{StoredOutcome, Db, RepairRow, has, live_installation}

-- `ORDER BY github_repo_id, pr_number`, on rows that have both.
abbrev pub number : Option ℕ → ℕ
number none = 0
number (some n) = n

abbrev pub is_set : Option ℕ → Bool
is_set none = false
is_set (some n) = true

unfoldable pub is_candidate : StoredOutcome → Bool
is_candidate o = o.kind == "censored" && is_set o.github_repo_id && is_set o.installation_id

abbrev pub listed_before : StoredOutcome → StoredOutcome → Bool
listed_before a b =
    ltb (number a.github_repo_id) (number b.github_repo_id)
    || number a.github_repo_id == number b.github_repo_id && leb a.pr_number b.pr_number

unfoldable pub candidates : Db → List StoredOutcome
unfolding is_candidate
candidates db = sort_by listed_before (keep is_candidate db.outcomes)

-- The job of an outcome; `window_days = NULL` is true of no row.
unfoldable pub of_outcome : StoredOutcome → OutcomeJob → Bool
of_outcome o j =
    o.installation_id == some j.installation_id
    && o.github_repo_id == some j.github_repo_id
    && o.pr_number == j.pr_number
    && o.window_days == some j.window_days

-- `scalar_one_or_none`, which raises on two rows; then `int(window_days)`, which raises on NULL.
abbrev pub repair_row : StoredOutcome → ℕ → Option ℕ → List OutcomeJob → Run RepairRow
repair_row o successor none jobs = escaped
repair_row o successor (some window) [] = returned (record {
  outcome_id = o.id;
  installation_id = number o.installation_id;
  github_repo_id = number o.github_repo_id;
  pr_number = o.pr_number;
  window_days = window;
  successor_installation_id = successor;
  job_id = none;
})
repair_row o successor (some window) (j ∷ []) = returned (record {
  outcome_id = o.id;
  installation_id = number o.installation_id;
  github_repo_id = number o.github_repo_id;
  pr_number = o.pr_number;
  window_days = window;
  successor_installation_id = successor;
  job_id = some j.id;
})
repair_row o successor (some window) (j ∷ k ∷ jobs) = escaped

abbrev pub add_to : Run RepairRow → Run (List RepairRow) → Run (List RepairRow)
add_to (returned r) (returned rs) = returned (r ∷ rs)
add_to (returned r) escaped = escaped
add_to escaped rs = escaped

-- The manifest's rows: `observed_at` as ISO text.
pub record Serialised : Type 0 where
  pub row : StoredOutcome
  pub observed_at : Text

-- The manifest file; the rows are what `json.loads` reads back from its text, if it reads it.
pub data File : Type 0 where
  no_file : File
  unreadable : File
  reads : List Serialised → File

pub record World : Type 0 where
  pub db : Db
  pub manifest : File

-- How the transaction of `apply` goes on: it commits, or a statement of it or the commit fails, or
-- writing the manifest fails and leaves a file or none.
pub data Fate : Type 0 where
  commits : Fate
  rolls_back : Fate
  unwritten : File → Fate

abbrev pub repend : OutcomeJob → OutcomeJob
repend j = record j { status = pending; started_at = none; finished_at = none; error = none }

abbrev pub settle_again : OutcomeJob → OutcomeJob
settle_again j = record j { status = done }

abbrev pub job_ids : List RepairRow → List ℕ
job_ids [] = []
job_ids (r ∷ rs) = elim r.job_id [ none ↦ job_ids rs | some id ↦ id ∷ job_ids rs ]

module _ (censor_reason : Option Text → Option Text) where
  -- Whether a candidate is repaired, given the live installation of its repository.
  abbrev pub is_transferred : StoredOutcome → Option ℕ → Bool
  is_transferred o none = false
  is_transferred o (some successor) =
      not (o.installation_id == some successor)
      && censor_reason o.detail == some (codes "unreachable")

  unfoldable pub inspect_rows : Db → List ℕ → List StoredOutcome → Run (List RepairRow)
  unfolding live_installation of_outcome
  inspect_rows db repos [] = returned []
  inspect_rows db repos (o ∷ os) =
      let live = live_installation db.ledger repos (number o.github_repo_id) in
      let rest = inspect_rows db repos os in
      let row = repair_row o (number live) o.window_days (keep (of_outcome o) db.ledger.jobs) in
      if is_transferred o live then add_to row rest else rest

  unfoldable pub inspect : Db → Run (List RepairRow)
  unfolding candidates inspect_rows
  inspect db =
      let found = candidates db in inspect_rows db (map (λ o. number o.github_repo_id) found) found

unfoldable pub undone : List RepairRow → Db → Db
undone rows db = record {
  outcomes = keep (λ o. not (has (map (λ r. r.outcome_id) rows) o.id)) db.outcomes;
  ledger = record db.ledger {
    jobs = update_where (λ j. has (job_ids rows) j.id) repend db.ledger.jobs;
  };
}

abbrev pub same_outcome : StoredOutcome → StoredOutcome → Bool
same_outcome o x = x.id == o.id

abbrev pub is_absent : List StoredOutcome → StoredOutcome → Bool
is_absent os o = not (any (same_outcome o) os)

-- The rows that are not there yet, and the jobs of the rows that are then.
unfoldable pub put_back : List StoredOutcome → Db → Db
unfolding of_outcome
put_back rows db =
    let outcomes = keep (is_absent db.outcomes) rows ++ db.outcomes in
    let named = λ (o : StoredOutcome). any (same_outcome o) rows in
    record {
      outcomes = outcomes;
      ledger = record db.ledger {
        jobs =
            update_where (λ j. any (λ o. named o && of_outcome o j) outcomes) settle_again
              db.ledger.jobs;
      };
    }

abbrev pub restore : World → Option (List StoredOutcome) → Run ℕ × World
restore w none = (escaped, w)
restore w (some rows) =
    (returned (length (keep (is_absent w.db.outcomes) rows)), record w { db = put_back rows w.db })

module _ (censor_reason : Option Text → Option Text) (isoformat : ℕ → Text)
    (fromisoformat : Text → Option ℕ) where
  abbrev pub serialise : StoredOutcome → Serialised
  serialise o = record { row = o; observed_at = isoformat o.observed_at }

  unfoldable pub manifest_of : List RepairRow → Db → List Serialised
  manifest_of rows db =
      map serialise (keep (λ o. has (map (λ r. r.outcome_id) rows) o.id) db.outcomes)

  -- The transaction after `inspect`. The manifest is written first, and removed where a transaction that
  -- has work fails after that.
  abbrev pub carry_out : Fate → World → List RepairRow → Run (List RepairRow) × World
  carry_out (unwritten left) w rows = (escaped, record w { manifest = left })
  carry_out commits w [] = (returned [], record w { manifest = reads [] })
  carry_out rolls_back w [] = (escaped, record w { manifest = reads [] })
  carry_out commits w (r ∷ rows) = (
    returned (r ∷ rows),
    record { db = undone (r ∷ rows) w.db; manifest = reads (manifest_of (r ∷ rows) w.db) },
  )
  carry_out rolls_back w (r ∷ rows) = (escaped, record w { manifest = no_file })

  abbrev pub after_inspect : ℕ → Fate → World → Run (List RepairRow) → Run (List RepairRow) × World
  after_inspect expected fate w escaped = (escaped, w)
  after_inspect expected fate w (returned rows) =
      if not (length rows == expected) then (escaped, w) else carry_out fate w rows

  abbrev pub unless_written : ℕ → Fate → World → File → Run (List RepairRow) × World
  unless_written expected fate w (reads manifest) = (escaped, w)
  unless_written expected fate w unreadable = (escaped, w)
  unless_written expected fate w no_file =
      after_inspect expected fate w (inspect censor_reason w.db)

  unfoldable pub apply : ℕ → Fate → World → Run (List RepairRow) × World
  unfolding inspect undone manifest_of
  apply expected fate w = unless_written expected fate w w.manifest

  -- `rollback`: the rows of the manifest with their instants read back, or an error.
  abbrev pub parsed_row :
      StoredOutcome → Option ℕ → Option (List StoredOutcome) → Option (List StoredOutcome)
  parsed_row o (some t) (some os) = some (record o { observed_at = t } ∷ os)
  parsed_row o (some t) none = none
  parsed_row o none os = none

  unfoldable pub restored : List Serialised → Option (List StoredOutcome)
  restored [] = some []
  restored (s ∷ ss) = parsed_row s.row (fromisoformat s.observed_at) (restored ss)

  abbrev pub roll_back_to : ℕ → World → File → Run ℕ × World
  roll_back_to expected w no_file = (escaped, w)
  roll_back_to expected w unreadable = (escaped, w)
  roll_back_to expected w (reads []) = if not (0 == expected) then (escaped, w) else (returned 0, w)
  roll_back_to expected w (reads (s ∷ ss)) =
      if not (length (s ∷ ss) == expected) then (escaped, w) else restore w (restored (s ∷ ss))

  unfoldable pub rollback : ℕ → World → Run ℕ × World
  unfolding restored put_back
  rollback expected w = roll_back_to expected w w.manifest
