-- ===== src/Outcomes/Adjudicate/Tests.antt =====
-- Runs of the adjudicator, and its theorems at concrete jobs.
use doug.Prelude.{
  ℕ, String, ◌≡◌, refl, ◌≢◌, ◌↔◌, Option, none, some, List, [], ◌∷◌, map, ◌==◌, nat_eq, string_eq,
  if◌then◌else◌,
}
use doug.Prelude.Int.{ℤ, pos, ◌+ℤ◌, ◌-ℤ◌}
use doug.Outcomes.Rows.{
  DateTime, OutcomeJob, Commit, pending, revert, clean, censored, unreachable, days,
}
use doug.Outcomes.Adjudicate.{adjudicate, disposition}
use doug.Outcomes.Adjudicate.Precedence.{RevertedInTime, disposition_precedence}
use doug.Outcomes.Adjudicate.Dealt.{IsDealt, adjudicate-IsDealt}

-- A reader of three dates: the instant at 100 days, one at 95, and a date with no offset.
abbrev reader : String → Option DateTime
reader date =
    if date == "day 110"
    then some (record { clock = pos (days 110); utcoffset = some (pos 0) })
    else if date == "day 95"
    then some (record { clock = pos (days 95); utcoffset = some (pos 0) })
    else if date == "naive"
    then some (record { clock = pos (days 101); utcoffset = none })
    else none

abbrev job : ℕ → OutcomeJob
job pr = record {
  id = pr;
  installation_id = 1;
  github_repo_id = 7;
  pr_number = pr;
  merge_commit_sha = "abc";
  merged_at = record { clock = pos (days 100); utcoffset = none };
  base_ref = "main";
  window_days = 14;
  due_at = 0;
  status = pending;
  attempts = 0;
  started_at = none;
  finished_at = none;
  error = none;
  claim_generation = 1;
  created_at = 0;
  merged_head_sha = none;
}

abbrev reverts : ℕ → Option Commit
reverts pr =
    if pr == 1
    then some (record { sha = "r1"; date = "day 110" })
    else if pr == 2
    then some (record { sha = "r2"; date = "day 95" })
    else if pr == 3
    then some (record { sha = "r3"; date = "naive" })
    else none

abbrev on_time : Option ℤ
on_time = some (pos (days 110))

abbrev no_clone : Option String
no_clone = none

abbrev jobs : List OutcomeJob
jobs = job 1 ∷ job 2 ∷ job 3 ∷ job 4 ∷ []

kinds :
    map (λ o. o.kind) (adjudicate reader reverts (some "main") jobs).outcomes
    ≡ revert ∷ clean ∷ clean ∷ []
unfolding adjudicate ◌-ℤ◌ ◌+ℤ◌
kinds = refl

refusals :
    map (λ u. u.job.pr_number) (adjudicate reader reverts (some "main") jobs).unadjudicable ≡ 3 ∷ []
unfolding adjudicate
refusals = refl

adjudicate-IsDealt_example :
    let a = adjudicate reader reverts (some "main") jobs in
    IsDealt reader reverts (some "main") jobs a.outcomes a.unadjudicable
adjudicate-IsDealt_example = adjudicate-IsDealt reader reverts (some "main") jobs

disposition_precedence_example :
    let d = disposition (job 1) on_time no_clone in
    ((d.0 ≡ revert) ↔ RevertedInTime (job 1) on_time)
    × ((d.0 ≡ clean) ↔ ((¬ RevertedInTime (job 1) on_time) × (no_clone ≡ some "main")))
    × ((d.0 ≡ censored) ↔ ((¬ RevertedInTime (job 1) on_time) × (no_clone ≢ some "main")))
    × ((d.1 ≡ some unreachable) ↔ ((¬ RevertedInTime (job 1) on_time) × (no_clone ≡ none)))
disposition_precedence_example = disposition_precedence (job 1) on_time no_clone
