-- ===== src/Outcomes/Queue/Settle.antt =====
-- outcome_queue.py: the writes on outcome_jobs and outcomes.
use doug.Prelude.{
  ℕ, suc, ◌+◌, String, Bool, true, ◌&&◌, not, Option, none, some, List, [], ◌∷◌, ◌++◌, map, ltb,
  leb, ◌==◌, nat_eq, string_eq, if◌then◌else◌, length, take, any, all, keep, count_if, update_where,
  sort_by, Text,
}
use doug.Outcomes.Rows.{
  OutcomeJob, pending, running, done, failed, Outcome, DateError, Unadjudicable, Adjudication,
}
use doug.Outcomes.Queue.{
  RepositoryKey, ClaimedBatch, OutcomeRow, Ledger, Result, ok, lost_claim, value_error, is_pending,
  is_running, job_before, claim_query, repository_identity, max_attempts, seconds,
}
use doug.Outcomes.Queue.Dictionaries.{
  Identity, identity, outcome_identity, dict_from, lookup, accounts_for,
}

unfoldable pub claim_row : ℕ → OutcomeJob → OutcomeJob
claim_row now j = record j {
  status = running;
  started_at = some now;
  finished_at = none;
  error = none;
  claim_generation = j.claim_generation + 1;
}

-- `WHERE id IN ids AND status = 'pending'`.
abbrev pub has_id : List ℕ → OutcomeJob → Bool
has_id ids j = any (λ i. i == j.id) ids

abbrev pub to_claim : List ℕ → OutcomeJob → Bool
to_claim ids j = has_id ids j && is_pending j.status

pub claimed_batch : RepositoryKey → List ℕ → Ledger → ClaimedBatch
claimed_batch k ids l =
    let identity = repository_identity l k in
    record {
      key = k;
      repo_full_name = identity.name;
      permanently_unreachable = identity.permanent;
      jobs = sort_by job_before (keep (has_id ids) l.jobs);
      evidence_installation_id = identity.successor;
    }

unfoldable pub claim_rows :
    RepositoryKey → ℕ → List ℕ → Ledger → Result (Option ClaimedBatch) × Ledger
unfolding claim_row claimed_batch
claim_rows k now [] l = (ok none, l)
claim_rows k now (i ∷ is) l =
    let ids = i ∷ is in
    let l' = record l { jobs = update_where (to_claim ids) (claim_row now) l.jobs } in
    if count_if (to_claim ids) l.jobs == length ids
    then (ok (some (claimed_batch k ids l')), l')
    else (lost_claim, l)

unfoldable pub claim_repository : RepositoryKey → ℕ → Ledger → Result (Option ClaimedBatch) × Ledger
unfolding claim_rows claim_query
claim_repository k now l = claim_rows k now (map (λ j. j.id) (claim_query k now l)) l

abbrev pub unset_or_older : Option ℕ → ℕ → ℕ → Bool
unset_or_older none age now = true
unset_or_older (some t) age now = ltb (t + age) now

unfoldable pub stalled : ℕ → ℕ → OutcomeJob → Bool
stalled lease now j = is_running j.status && unset_or_older j.started_at (seconds lease) now

unfoldable pub reclaim_row : OutcomeJob → OutcomeJob
reclaim_row j = record j { status = pending; started_at = none }

unfoldable pub reclaim_stalled : ℕ → ℕ → Ledger → ℕ × Ledger
unfolding stalled reclaim_row
reclaim_stalled lease now l = (
  count_if (stalled lease now) l.jobs,
  record l { jobs = update_where (stalled lease now) reclaim_row l.jobs },
)

-- `expected`, a dictionary from ids: the last job of an id counts.
abbrev pub expected_generation : ℕ → List OutcomeJob → Option ℕ
expected_generation id [] = none
expected_generation id (j ∷ js) =
    let rest = expected_generation id js in
    elim rest [ some g ↦ some g | none ↦ if j.id == id then some j.claim_generation else none ]

abbrev pub distinct_ids : List OutcomeJob → ℕ
distinct_ids [] = 0
distinct_ids (j ∷ js) =
    let rest = distinct_ids js in if any (λ k. k.id == j.id) js then rest else suc rest

abbrev pub is_current : List OutcomeJob → OutcomeJob → Bool
is_current batch j = elim (expected_generation j.id batch) [
  | none ↦ true
  | some g ↦ is_running j.status && j.claim_generation == g
]

abbrev pub in_batch : List OutcomeJob → OutcomeJob → Bool
in_batch batch j = any (λ k. k.id == j.id) batch

unfoldable pub claims_are_current : Ledger → ClaimedBatch → Bool
claims_are_current l batch =
    count_if (in_batch batch.jobs) l.jobs == distinct_ids batch.jobs
    && all (is_current batch.jobs) l.jobs

-- The row of a job, still running under the claim that the batch holds.
unfoldable pub held_by : OutcomeJob → OutcomeJob → Bool
held_by job j = j.id == job.id && is_running j.status && j.claim_generation == job.claim_generation

unfoldable pub fail_row : Text → ℕ → ℕ → OutcomeJob → OutcomeJob
fail_row error now cap j =
    let at_cap = leb cap (j.attempts + 1) in
    record j {
      status = if at_cap then failed else pending;
      attempts = j.attempts + 1;
      started_at = none;
      finished_at = if at_cap then some now else none;
      error = some (take 1000 error);
    }

-- An update that must meet exactly one row; none is the raised `LostClaim`.
unfoldable pub update_one : OutcomeJob → (OutcomeJob → OutcomeJob) → Ledger → Option Ledger
update_one job write l =
    if count_if (held_by job) l.jobs == 1
    then some (record l { jobs = update_where (held_by job) write l.jobs })
    else none

unfoldable pub fail_job : OutcomeJob → Text → ℕ → ℕ → Ledger → Option Ledger
unfolding update_one
fail_job job error now cap = update_one job (fail_row error now cap)

infixl 5 ◌>>=◌
abbrev pub ◌>>=◌ : Option Ledger → (Ledger → Option Ledger) → Option Ledger
none >>= f = none
some l >>= f = f l

unfoldable pub fail_jobs : List OutcomeJob → Text → ℕ → ℕ → Ledger → Option Ledger
unfolding fail_job
fail_jobs [] error now cap l = some l
fail_jobs (job ∷ jobs) error now cap l =
    fail_job job error now cap l >>= fail_jobs jobs error now cap

-- The end of a transaction: what it wrote, or a rollback.
abbrev pub commit {ℓ} : {A : Type ℓ} → A → Ledger → Option Ledger → Result A × Ledger
commit a l none = (lost_claim, l)
commit a l (some l') = (ok a, l')

unfoldable pub fail_batch : ClaimedBatch → Text → ℕ → ℕ → Ledger → Result ℕ × Ledger
unfolding fail_jobs
fail_batch batch error now cap l =
    if claims_are_current l batch
    then commit (length batch.jobs) l (fail_jobs batch.jobs error now cap l)
    else (lost_claim, l)

unfoldable pub finish_row : ℕ → OutcomeJob → OutcomeJob
finish_row now j = record j { status = done; finished_at = some now; error = none }

pub outcome_row : String → ℕ → String → Outcome → OutcomeRow
outcome_row repo observed_at prereg_hash o = record {
  repo = repo;
  pr_number = o.pr_number;
  kind = o.kind;
  observed_at = observed_at;
  source = "git-labels";
  github_repo_id = o.github_repo_id;
  installation_id = o.installation_id;
  window_days = o.window_days;
  merge_commit_sha = o.merge_commit_sha;
  detail = o.detail;
  prereg_hash = prereg_hash;
}

abbrev pub with_job : Option OutcomeJob → (OutcomeJob → Option Ledger) → Option Ledger
with_job none f = none
with_job (some j) f = f j

module _ (jobs : List (Identity × OutcomeJob)) (now : ℕ) where
  -- One classified job: the insert, then the update.
  unfoldable pub settle_one : OutcomeRow → Identity → Ledger → Option Ledger
  unfolding update_one finish_row
  settle_one row k l =
      with_job (lookup k jobs)
        (λ job. update_one job (finish_row now) (record l { outcomes = l.outcomes ++ row ∷ [] }))

  unfoldable pub settle_all :
      String → ℕ → String → List (Identity × Outcome) → Ledger → Option Ledger
  unfolding settle_one outcome_row
  settle_all repo at hash [] l = some l
  settle_all repo at hash ((k, o) ∷ rest) l =
      settle_one (outcome_row repo at hash o) k l >>= settle_all repo at hash rest

  -- The refusals; `message` is `str` of the error that `adjudicate` caught.
  unfoldable pub refuse_all :
      (DateError → Text) → List (Identity × Unadjudicable) → Ledger → Option Ledger
  unfolding fail_job
  refuse_all message [] l = some l
  refuse_all message ((k, u) ∷ rest) l =
      with_job (lookup k jobs) (λ job. fail_job job (message u.reason) now max_attempts l)
      >>= refuse_all message rest

unfoldable pub settle_batch :
    (DateError → Text)
    → ClaimedBatch
    → Adjudication
    → String
    → ℕ
    → String
    → ℕ
    → Ledger
    → Result (ℕ × ℕ) × Ledger
unfolding settle_all refuse_all dict_from accounts_for
settle_batch message batch a repo observed_at prereg_hash now l =
    let jobs = dict_from identity (λ j. j) [] batch.jobs in
    let classified = dict_from outcome_identity (λ o. o) [] a.outcomes in
    let refused = dict_from (λ (u : Unadjudicable). identity u.job) (λ u. u) [] a.unadjudicable in
    if not (accounts_for jobs classified refused)
    then (value_error, l)
    else if not (claims_are_current l batch)
    then (lost_claim, l)
    else commit (length classified, length refused) l
        (settle_all jobs now repo observed_at prereg_hash classified l
          >>= refuse_all jobs now message refused)
