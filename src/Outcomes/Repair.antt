-- ===== src/Outcomes/Repair.antt =====
-- api/doug/transfer_repair.py: the censorings that a transfer of a repository caused, undone.
--
-- The world is the database and the manifest file; the manifest's JSON text stands for the value that
-- `json.loads` reads back from it. The reading of `outcomes.detail` as JSON is a parameter.
pub mod Live
pub mod Steps
pub mod Inspected
pub mod Applied
pub mod Back
pub mod RolledBack
mod Tests
use doug.Prelude.{
  ℕ, zero, suc, ◌+◌, String, Bool, true, false, ◌&&◌, ◌||◌, not, Option, none, some, List, [], ◌∷◌,
  ◌++◌, map, ltb, leb, ◌==◌, nat_eq, string_eq, option_eq, list_eq, if◌then◌else◌, length, any,
  keep, find?, update_where, sort_by, Text, codes,
}
use doug.Outcomes.Rows.{OutcomeJob, pending, done}
use doug.Outcomes.Queue.{Installation, InstallationRepo, Ledger, newer}
use doug.Outcomes.Queue.Worker.{Run, returned, escaped}

-- A row of `outcomes`; NULL where it is older than the outcome loop.
pub record StoredOutcome : Type 0 where
  pub id : ℕ
  pub repo : String
  pub pr_number : ℕ
  pub kind : String
  pub observed_at : ℕ
  pub source : String
  pub github_repo_id : Option ℕ
  pub installation_id : Option ℕ
  pub window_days : Option ℕ
  pub merge_commit_sha : Option String
  pub detail : Option Text

pub record Db : Type 0 where
  pub outcomes : List StoredOutcome
  pub ledger : Ledger

pub record RepairRow : Type 0 where
  pub outcome_id : ℕ
  pub installation_id : ℕ
  pub github_repo_id : ℕ
  pub pr_number : ℕ
  pub window_days : ℕ
  pub successor_installation_id : ℕ
  pub job_id : Option ℕ

abbrev pub has : List ℕ → ℕ → Bool
has ids id = any (λ i. i == id) ids

-- `_live_installations`: the active rows of the repositories asked for, the newest last.
unfoldable pub is_live : Ledger → List ℕ → InstallationRepo → Bool
is_live l repos r =
    has repos r.github_repo_id
    && r.state == "active"
    && any (λ i. i.installation_id == r.installation_id && i.state == "active") l.installations

abbrev pub older : InstallationRepo → InstallationRepo → Bool
older a b = ltb a.updated_at b.updated_at || a.updated_at == b.updated_at && ltb a.id b.id

unfoldable pub live_rows : Ledger → List ℕ → List InstallationRepo
unfolding is_live
live_rows l repos = sort_by older (keep (is_live l repos) l.repos)

-- A dict filled in that order: the last row of a key stays.
abbrev pub or_this : Option InstallationRepo → Option InstallationRepo → Option InstallationRepo
or_this none s = s
or_this (some r) s = some r

unfoldable pub last_of : ℕ → List InstallationRepo → Option InstallationRepo
last_of repo [] = none
last_of repo (r ∷ rs) =
    or_this (last_of repo rs) (if r.github_repo_id == repo then some r else none)

abbrev pub installation_of : Option InstallationRepo → Option ℕ
installation_of none = none
installation_of (some r) = some r.installation_id

unfoldable pub live_installation : Ledger → List ℕ → ℕ → Option ℕ
unfolding live_rows last_of
live_installation l repos repo = installation_of (last_of repo (live_rows l repos))
