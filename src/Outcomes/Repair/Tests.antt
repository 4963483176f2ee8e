-- ===== src/Outcomes/Repair/Tests.antt =====
-- A repair of one transferred repository, and the theorems at it.
use doug.Prelude.{ℕ, ◌≡◌, refl, Option, none, some, [], ◌∷◌, map, Text, codes, nat_eq}
use doug.Prelude.Int.{ℤ}
use doug.Outcomes.Rows.{OutcomeJob, done, pending}
use doug.Outcomes.Queue.{Ledger, live_registration}
use doug.Outcomes.Repair.{StoredOutcome, live_installation, installation_of}
use doug.Outcomes.Repair.Live.{live_installation-agrees}
use doug.Outcomes.Repair.Steps.{World, no_file, commits, apply}
use doug.Outcomes.Repair.Applied.{IsKeyed, IsAllOrNothing, apply-IsAllOrNothing}
use doug.Outcomes.Repair.RolledBack.{Undoes, apply-Undoes}

abbrev its_job : OutcomeJob
its_job = record {
  id = 5;
  installation_id = 1;
  github_repo_id = 7;
  pr_number = 42;
  merge_commit_sha = "ccc";
  merged_at = record { clock = ℤ.pos 0; utcoffset = none };
  base_ref = "main";
  window_days = 14;
  due_at = 100;
  status = done;
  attempts = 0;
  started_at = none;
  finished_at = some 120;
  error = none;
  claim_generation = 1;
  created_at = 10;
  merged_head_sha = none;
}

abbrev censoring : StoredOutcome
censoring = record {
  id = 3;
  repo = "old/app";
  pr_number = 42;
  kind = "censored";
  observed_at = 120;
  source = "git-labels";
  github_repo_id = some 7;
  installation_id = some 1;
  window_days = some 14;
  merge_commit_sha = some "ccc";
  detail = some (codes "unreachable");
}

-- The repository left installation 1 and is registered under 2.
abbrev ledger : Ledger
ledger = record {
  jobs = its_job ∷ [];
  outcomes = [];
  installations =
      record { installation_id = 1; state = "deleted" }
      ∷ record { installation_id = 2; state = "active" }
      ∷ [];
  repos =
      record {
        id = 1;
        installation_id = 1;
        github_repo_id = 7;
        full_name = "old/app";
        state = "removed";
        updated_at = 50;
      }
      ∷ record {
        id = 2;
        installation_id = 2;
        github_repo_id = 7;
        full_name = "new/app";
        state = "active";
        updated_at = 60;
      }
      ∷ [];
  verdicts = [];
}

abbrev world : World
world = record { db = record { outcomes = censoring ∷ []; ledger = ledger }; manifest = no_file }

-- The detail's text is its reason, and an instant is written as one code point.
abbrev reason : Option Text → Option Text
reason d = d

abbrev iso : ℕ → Text
iso t = t ∷ []

abbrev from_iso : Text → Option ℕ
from_iso [] = none
from_iso (t ∷ s) = some t

abbrev applied : World
applied = (apply reason iso from_iso 1 commits world).1

repended : map (λ j. j.status) applied.db.ledger.jobs ≡ pending ∷ []
unfolding apply
repended = refl

world-IsKeyed : IsKeyed world.db
world-IsKeyed = record { outcome_ids = (tt, tt); job_ids_distinct = (tt, tt) }

live_installation-agrees_example :
    live_installation ledger (7 ∷ []) 7 ≡ installation_of (live_registration ledger 7)
live_installation-agrees_example = live_installation-agrees ledger (7 ∷ []) 7 refl

apply-IsAllOrNothing_example :
    IsAllOrNothing reason 1 commits world (apply reason iso from_iso 1 commits world)
apply-IsAllOrNothing_example =
    apply-IsAllOrNothing reason iso from_iso 1 commits world world-IsKeyed

apply-Undoes_example :
    Undoes reason iso from_iso (λ t. refl) world (apply reason iso from_iso 1 commits world)
apply-Undoes_example = apply-Undoes reason iso from_iso (λ t. refl) 1 commits world world-IsKeyed
