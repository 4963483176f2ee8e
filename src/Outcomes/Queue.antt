-- ===== src/Outcomes/Queue.antt =====
-- api/doug/outcome_queue.py: claims and settlement of outcome jobs.
--
-- A function is one transaction on the ledger. Where the code raises inside one, the ledger comes
-- back as it was, since the database rolls the transaction back. Instants are microseconds.
pub mod Dictionaries
pub mod Settle
pub mod Balance
pub mod Op
pub mod Advance
pub mod Fencing
pub mod Trace
pub mod Dict
pub mod Accepts
pub mod Settlement
pub mod Worker
pub mod Published
pub mod Summary
pub mod Newest
pub mod Identity
mod Tests
use doug.Prelude.{
  ℕ, zero, suc, ◌+◌, ◌*◌, String, Bool, true, false, ◌&&◌, ◌||◌, not, Option, none, some, List, [],
  ◌∷◌, ◌++◌, map, ltb, leb, ◌==◌, nat_eq, string_eq, if◌then◌else◌, length, take, any, all, keep,
  count_if, find?, update_where, sort_by, Text, min,
}
use doug.Outcomes.Rows.{
  OutcomeJob, JobStatus, pending, running, done, failed, OutcomeKind, OutcomeDetail, Outcome,
  DateError, Unadjudicable, Adjudication,
}

abbrev pub max_attempts : ℕ
max_attempts = 10

abbrev pub stall_lease_seconds : ℕ
stall_lease_seconds = 7200

abbrev pub seconds : ℕ → ℕ
seconds n = n * 1000000

pub record RepositoryKey : Type 0 where
  pub installation_id : ℕ
  pub github_repo_id : ℕ

pub record ClaimedBatch : Type 0 where
  pub key : RepositoryKey
  pub repo_full_name : Option String
  pub permanently_unreachable : Bool
  pub jobs : List OutcomeJob
  pub evidence_installation_id : Option ℕ

pub reader_installation_id : ClaimedBatch → ℕ
reader_installation_id b = elim b.evidence_installation_id [
  | none ↦ b.key.installation_id
  | some i ↦ i
]

-- `store.installations`, `store.installation_repos`, and the columns of `store.verdicts` that are read.
pub record Installation : Type 0 where
  pub installation_id : ℕ
  pub state : String

pub record InstallationRepo : Type 0 where
  pub id : ℕ
  pub installation_id : ℕ
  pub github_repo_id : ℕ
  pub full_name : String
  pub state : String
  pub updated_at : ℕ

pub record VerdictRow : Type 0 where
  pub id : ℕ
  pub installation_id : ℕ
  pub github_repo_id : ℕ
  pub repo : String

-- A row of `store.outcomes` as the settlement writes it; `source` is the constant "git-labels".
pub record OutcomeRow : Type 0 where
  pub repo : String
  pub pr_number : ℕ
  pub kind : OutcomeKind
  pub observed_at : ℕ
  pub source : String
  pub github_repo_id : ℕ
  pub installation_id : ℕ
  pub window_days : ℕ
  pub merge_commit_sha : String
  pub detail : OutcomeDetail
  pub prereg_hash : String

pub record Ledger : Type 0 where
  pub jobs : List OutcomeJob
  pub outcomes : List OutcomeRow
  pub installations : List Installation
  pub repos : List InstallationRepo
  pub verdicts : List VerdictRow

pub data Result {ℓ} (A : Type ℓ) : Type ℓ where
  ok : A → Result A
  lost_claim : Result A
  value_error : Result A

abbrev pub is_pending : JobStatus → Bool
is_pending pending = true
is_pending _ = false

abbrev pub is_running : JobStatus → Bool
is_running running = true
is_running _ = false

abbrev pub is_done : JobStatus → Bool
is_done done = true
is_done _ = false

-- `due_repositories`: one entry for each repository with mature pending work, its earliest due time.
abbrev pub same_repository : RepositoryKey → OutcomeJob → Bool
same_repository k j = j.installation_id == k.installation_id && j.github_repo_id == k.github_repo_id

abbrev pub job_key : OutcomeJob → RepositoryKey
job_key j = record { installation_id = j.installation_id; github_repo_id = j.github_repo_id }

pub add_due : OutcomeJob → List (RepositoryKey × ℕ) → List (RepositoryKey × ℕ)
add_due j [] = (job_key j, j.due_at) ∷ []
add_due j ((k, first) ∷ rest) =
    if same_repository k j then (k, min first j.due_at) ∷ rest else (k, first) ∷ add_due j rest

pub group_due : List OutcomeJob → List (RepositoryKey × ℕ)
unfolding add_due
group_due [] = []
group_due (j ∷ js) = add_due j (group_due js)

abbrev pub due_before : RepositoryKey × ℕ → RepositoryKey × ℕ → Bool
due_before (k, a) (l, b) = ltb a b || a == b && leb k.installation_id l.installation_id

abbrev pub mature : ℕ → OutcomeJob → Bool
mature now j = is_pending j.status && leb j.due_at now

pub due_repositories : ℕ → Ledger → List RepositoryKey
unfolding group_due
due_repositories now l = map (λ e. e.0) (sort_by due_before (group_due (keep (mature now) l.jobs)))

-- `_claim_query`, in its order.
abbrev pub claimable : RepositoryKey → ℕ → OutcomeJob → Bool
claimable k now j = same_repository k j && mature now j

abbrev pub job_before : OutcomeJob → OutcomeJob → Bool
job_before i j = ltb i.due_at j.due_at || i.due_at == j.due_at && leb i.id j.id

pub claim_query : RepositoryKey → ℕ → Ledger → List OutcomeJob
claim_query k now l = sort_by job_before (keep (claimable k now) l.jobs)

-- `_live_registration`: the newest active registration under an active installation.
unfoldable pub covers : Ledger → ℕ → InstallationRepo → Bool
covers l repo r =
    r.github_repo_id == repo
    && r.state == "active"
    && any (λ i. i.installation_id == r.installation_id && i.state == "active") l.installations

abbrev pub newer : InstallationRepo → InstallationRepo → Bool
newer a b = ltb b.updated_at a.updated_at || a.updated_at == b.updated_at && leb b.id a.id

abbrev pub newest_of : InstallationRepo → Option InstallationRepo → InstallationRepo
newest_of r none = r
newest_of r (some s) = if newer r s then r else s

unfoldable pub newest : (InstallationRepo → Bool) → List InstallationRepo → Option InstallationRepo
newest test [] = none
newest test (r ∷ rs) = let rest = newest test rs in if test r then some (newest_of r rest) else rest

unfoldable pub live_registration : Ledger → ℕ → Option InstallationRepo
unfolding newest
live_registration l repo = newest (covers l repo) l.repos

-- `_repository_identity`: the name, whether the jobs are to be censored, and the successor.
pub record RepositoryIdentity : Type 0 where
  pub name : Option String
  pub permanent : Bool
  pub successor : Option ℕ

abbrev pub of_key : RepositoryKey → InstallationRepo → Bool
of_key k r = r.installation_id == k.installation_id && r.github_repo_id == k.github_repo_id

abbrev pub deleted : Option Installation → Bool
deleted none = false
deleted (some i) = i.state == "deleted"

abbrev pub inactive : Option InstallationRepo → Bool
inactive none = false
inactive (some r) = not (r.state == "active")

abbrev pub newest_verdict : RepositoryKey → List VerdictRow → Option VerdictRow
newest_verdict k [] = none
newest_verdict k (v ∷ vs) =
    let rest = newest_verdict k vs in
    if v.installation_id == k.installation_id && v.github_repo_id == k.github_repo_id
    then (elim rest [ none ↦ some v | some w ↦ if leb w.id v.id then some v else some w ])
    else rest

abbrev pub verdict_name : Option VerdictRow → Option String
verdict_name none = none
verdict_name (some v) = some v.repo

abbrev pub own_identity :
    Ledger → RepositoryKey → Option InstallationRepo → Bool → RepositoryIdentity
own_identity l k (some r) permanent = record {
  name = some r.full_name;
  permanent = permanent;
  successor = none;
}
own_identity l k none permanent = record {
  name = verdict_name (newest_verdict k l.verdicts);
  permanent = permanent;
  successor = none;
}

-- The branch that a permanent loss takes before it is believed.
pub or_successor : RepositoryKey → Option InstallationRepo → RepositoryIdentity → RepositoryIdentity
or_successor k none own = own
or_successor k (some r) own =
    if not (r.installation_id == k.installation_id)
    then record { name = some r.full_name; permanent = false; successor = some r.installation_id }
    else own

pub repository_identity : Ledger → RepositoryKey → RepositoryIdentity
unfolding or_successor live_registration
repository_identity l k =
    let repo = find? (of_key k) l.repos in
    let permanent =
      deleted (find? (λ i. i.installation_id == k.installation_id) l.installations)
      || inactive repo in
    let own = own_identity l k repo permanent in
    if permanent then or_successor k (live_registration l k.github_repo_id) own else own
