-- ===== src/Outcomes/Adjudicate.antt =====
-- api/doug/adjudicate.py: merged-PR job rows and a revert map, one result for each job.
--
-- Instants are signed microseconds. `datetime.fromisoformat` is a parameter: the theorems hold
-- whatever dates it accepts.
pub mod Precedence
pub mod Accounting
pub mod Dealt
mod Tests
use doug.Prelude.{
  ℕ, ◌+◌, String, Bool, true, false, ◌&&◌, Option, none, some, List, [], ◌∷◌, ◌==◌, nat_eq,
  string_eq, if◌then◌else◌,
}
use doug.Prelude.Int.{ℤ, pos, ◌+ℤ◌, ◌-ℤ◌, leb_ℤ, ltb_ℤ}
use doug.Outcomes.Rows.{
  DateTime, OutcomeJob, Commit, OutcomeKind, revert, clean, censored, CensorReason, base_ref,
  unreachable, OutcomeDetail, Outcome, DateError, unparseable, no_offset, Unadjudicable,
  Adjudication, days, tolerance_days,
}

pub data Result {ℓ} (A : Type ℓ) : Type ℓ where
  ok : A → Result A
  value_error : DateError → Result A

-- `value.astimezone(UTC)`, for a value that carries its offset.
abbrev pub to_utc : ℤ → ℤ → ℤ
to_utc clock offset = clock -ℤ offset

-- `_as_utc`: a value without an offset is read as UTC.
pub as_utc : DateTime → ℤ
as_utc t = elim t.utcoffset [ none ↦ t.clock | some offset ↦ to_utc t.clock offset ]

-- `git_labels.commit_instant` on what `fromisoformat` made of the date.
pub instant_of : String → Option DateTime → Result ℤ
instant_of date none = value_error (unparseable date)
instant_of date (some t) = elim t.utcoffset [
  | none ↦ value_error (no_offset date)
  | some offset ↦ ok (to_utc t.clock offset)
]

-- The window of a job, both ends inclusive.
pub window_starts_at : OutcomeJob → ℤ
unfolding as_utc
window_starts_at job = as_utc job.merged_at -ℤ pos (days tolerance_days)

pub window_ends_at : OutcomeJob → ℤ
unfolding as_utc
window_ends_at job = as_utc job.merged_at +ℤ pos (days job.window_days)

pub in_window : ℤ → ℤ → Option ℤ → Bool
in_window starts ends none = false
in_window starts ends (some t) = leb_ℤ starts t && leb_ℤ t ends

abbrev pub sha_of : Option Commit → Option String
sha_of none = none
sha_of (some c) = some c.sha

-- The branch that follows attribution: the clone's default branch, or none where there is no clone.
pub without_revert : String → Option String → OutcomeKind × Option CensorReason
without_revert base none = (censored, some unreachable)
without_revert base (some branch) =
    if base == branch then (clean, none) else (censored, some CensorReason.base_ref)

-- Attribution first, then the two reasons to censor, then `clean`.
pub disposition : OutcomeJob → Option ℤ → Option String → OutcomeKind × Option CensorReason
unfolding in_window without_revert window_starts_at window_ends_at
disposition job revert_instant default_branch =
    if in_window (window_starts_at job) (window_ends_at job) revert_instant
    then (revert, none)
    else without_revert job.base_ref default_branch

unfoldable pub classify : OutcomeJob → Option Commit → Option ℤ → Option String → Outcome
unfolding disposition
classify job commit revert_instant default_branch =
    let (kind, censor_reason) = disposition job revert_instant default_branch in
    record {
      installation_id = job.installation_id;
      github_repo_id = job.github_repo_id;
      pr_number = job.pr_number;
      window_days = job.window_days;
      merge_commit_sha = job.merge_commit_sha;
      kind = kind;
      detail = record {
        anchor_sha = job.merge_commit_sha;
        revert_sha = sha_of commit;
        revert_instant = revert_instant;
        window_starts_at = window_starts_at job;
        window_ends_at = window_ends_at job;
        base_ref = job.base_ref;
        default_branch = default_branch;
        censor_reason = censor_reason;
      };
    }

-- The count of `Adjudication.predated_reverts`, a dictionary from window lengths.
abbrev pub predates : Outcome → Bool
predates o = elim o.detail.revert_instant [
  | none ↦ false
  | some t ↦ ltb_ℤ t o.detail.window_starts_at
]

-- `dropped[w] = dropped.get(w, 0) + 1`.
pub bump : ℕ → List (ℕ × ℕ) → List (ℕ × ℕ)
bump w [] = (w, 1) ∷ []
bump w ((v, n) ∷ rest) = if v == w then (v, n + 1) ∷ rest else (v, n) ∷ bump w rest

pub predated_from : List (ℕ × ℕ) → List Outcome → List (ℕ × ℕ)
unfolding bump
predated_from dropped [] = dropped
predated_from dropped (o ∷ os) =
    predated_from (if predates o then bump o.window_days dropped else dropped) os

pub predated_reverts : Adjudication → List (ℕ × ℕ)
unfolding predated_from
predated_reverts a = predated_from [] a.outcomes

module _ (fromisoformat : String → Option DateTime) where
  pub commit_instant : String → Result ℤ
  unfolding instant_of
  commit_instant date = instant_of date (fromisoformat date)

  -- The instant of the attributed revert, if one is attributed.
  pub revert_instant_of : Option Commit → Result (Option ℤ)
  unfolding commit_instant
  revert_instant_of none = ok none
  revert_instant_of (some c) = elim (commit_instant c.date) [
    | ok t ↦ ok (some t)
    | value_error e ↦ value_error e
  ]

  abbrev pub add_result :
      OutcomeJob → Option Commit → Option String → Result (Option ℤ) → Adjudication → Adjudication
  add_result job commit default_branch (ok t) rest = record rest {
    outcomes = classify job commit t default_branch ∷ rest.outcomes;
  }
  add_result job commit default_branch (value_error e) rest = record rest {
    unadjudicable = record { job = job; reason = e } ∷ rest.unadjudicable;
  }

  -- The loop over the jobs, its two lists built from the front.
  unfoldable pub adjudicate : (ℕ → Option Commit) → Option String → List OutcomeJob → Adjudication
  unfolding revert_instant_of classify
  adjudicate revert_map default_branch [] = record { outcomes = []; unadjudicable = [] }
  adjudicate revert_map default_branch (job ∷ jobs) =
      let commit = revert_map job.pr_number in
      add_result job commit default_branch (revert_instant_of commit)
        (adjudicate revert_map default_branch jobs)
