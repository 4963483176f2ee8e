-- ===== src/Convergence.antt =====
-- api/doug/convergence.py: how the findings of two reviews of one pull request relate.
pub mod Rows
pub mod Patterns
pub mod Notices
pub mod Rule5
pub mod Hunks
pub mod Cases
pub mod Coverage
pub mod Budget
pub mod Pairs
pub mod Counts
pub mod Evidence
pub mod Headline
mod Tests
use doug.Prelude.{
  ℕ, zero, suc, ◌+◌, ◌-◌, min, String, Bool, true, false, ◌&&◌, ◌||◌, not, Option, none, some, List,
  [], ◌∷◌, ◌++◌, map, ltb, leb, ◌==◌, nat_eq, string_eq, list_eq, option_eq, if◌then◌else◌, length,
  any, all, count_if, keep, Text, codes,
}
use doug.Convergence.Patterns.{Unicode, from_rule, normalize}
use doug.Convergence.Notices.{notice_segments}
use doug.Convergence.Rows.{
  Finding, HunkIndex, Read, Side, prior, later, State, persisted, resolved, new, unknown, excluded,
  matched, Reason, identity_incomplete, file_uncovered, settled, no_hunk_index, left_diff,
  not_reconfirmed, edited_not_verified, Basis, by_construction, attributed_surviving, PairDelta,
  unchanged, changed_elsewhere, Classification, plain, abstained,
}
use doug.Convergence.Rule5.{rule5, code_moved, uncovered}

abbrev pub Identity : Type 0
Identity = Text × Text

abbrev pub same_identity : Identity → Identity → Bool
same_identity (p, f) (q, g) = p == q && f == g

abbrev pub settlement_rules : List Text
settlement_rules =
    codes "settled-missing-import"
    ∷ codes "settled-schema-dependency"
    ∷ codes "settled-ci-green"
    ∷ codes "settled-syntax-error"
    ∷ []

abbrev pub text_of : Option Text → Text
text_of none = []
text_of (some t) = t

-- A dictionary of counts, by its values: 0 where a key is missing.
abbrev pub Counter : Type 0
Counter = Identity → ℕ

pub spend : Identity → Counter → Counter
spend k c i = if same_identity i k then c i - 1 else c i

module _ (u : Unicode) where
  -- `_identity`.
  pub identity : Finding → Option Identity
  identity row = elim (from_rule u row.rule) [
    | none ↦ none
    | some pattern ↦ elim row.file [ none ↦ none | some file ↦ some (pattern, file) ]
  ]

  pub unmatchable : Side → Finding → Classification
  unmatchable side row = elim (from_rule u row.rule) [
    | none ↦ plain side row excluded
    | some pattern ↦ abstained side row identity_incomplete
  ]

  abbrev pub has_identity : Identity → Finding → Bool
  has_identity k row = elim (identity row) [ none ↦ false | some i ↦ same_identity i k ]

  pub identity_counts : List Finding → Counter
  unfolding identity
  identity_counts rows k = count_if (has_identity k) rows

  -- `_settled`: a notice of the later verdict names the finding.
  abbrev pub names : Identity → Text × Text → Bool
  names (pattern, file) (noticed_file, slug) = noticed_file == file && normalize u slug == pattern

  pub is_settled : Identity → List Finding → Bool
  is_settled k reasons =
      any
        (λ row.
          any (λ r. r == row.rule) settlement_rules
          && any (names k) (notice_segments (text_of row.label)))
        reasons

  pub abstention : Identity → List Finding → Option Read → Option Reason
  unfolding uncovered is_settled
  abstention k reasons later_read =
      if uncovered k.1 later_read
      then some file_uncovered
      else if is_settled k reasons
      then some settled
      else none

  module _ (reasons : List Finding) (later_read prior_read : Option Read) where
    pub absent : Finding → Identity → Option Reason → Classification
    unfolding rule5
    absent row k (some reason) = abstained prior row reason
    absent row k none = rule5 row k.1 prior_read later_read

    -- One prior row, and the budget that it leaves.
    pub prior_step : Finding → Counter → Option Identity → Classification × Counter
    unfolding unmatchable absent abstention spend
    prior_step row budget none = (unmatchable prior row, budget)
    prior_step row budget (some k) =
        if ltb 0 (budget k)
        then (plain prior row persisted, spend k budget)
        else (absent row k (abstention k reasons later_read), budget)

    pub prior_rows : Counter → List Finding → List Classification
    unfolding prior_step identity
    prior_rows budget [] = []
    prior_rows budget (row ∷ rows) =
        let (entry, left) = prior_step row budget (identity row) in entry ∷ prior_rows left rows

    pub later_step : Finding → Counter → Option Identity → Classification × Counter
    unfolding unmatchable code_moved spend
    later_step row budget none = (unmatchable later row, budget)
    later_step row budget (some k) =
        if ltb 0 (budget k) then (plain later row matched, spend k budget) else (
          record (plain later row new) { code_changed = code_moved k.1 prior_read later_read },
          budget,
        )

    pub later_rows : Counter → List Finding → List Classification
    unfolding later_step identity
    later_rows budget [] = []
    later_rows budget (row ∷ rows) =
        let (entry, left) = later_step row budget (identity row) in entry ∷ later_rows left rows

  unfoldable pub classify :
      List Finding → List Finding → List Finding → Option Read → Option Read → List Classification
  unfolding prior_rows later_rows identity_counts
  classify prior_findings later_findings reasons later_read prior_read =
      let prior_counts = identity_counts prior_findings in
      let later_counts = identity_counts later_findings in
      let common = λ (k : Identity). min (prior_counts k) (later_counts k) in
      prior_rows reasons later_read prior_read common prior_findings
      ++ later_rows reasons later_read prior_read common later_findings

-- `compare`: the counts of a classification.
pub record ConvergenceReport : Type 0 where
  pub resolved : ℕ
  pub persisted : ℕ
  pub new : ℕ
  pub unknown : Reason → ℕ

abbrev pub is_state : State → State → Bool
is_state persisted persisted = true
is_state resolved resolved = true
is_state new new = true
is_state unknown unknown = true
is_state excluded excluded = true
is_state matched matched = true
is_state _ _ = false

abbrev pub reason_code : Reason → ℕ
reason_code identity_incomplete = 0
reason_code file_uncovered = 1
reason_code settled = 2
reason_code no_hunk_index = 3
reason_code left_diff = 4
reason_code not_reconfirmed = 5
reason_code edited_not_verified = 6

abbrev pub gives_reason : Reason → Classification → Bool
gives_reason r e =
    is_state unknown e.state
    && elim e.unknown_reason [ none ↦ false | some s ↦ reason_code s == reason_code r ]

pub report_of : List Classification → ConvergenceReport
report_of entries = record {
  resolved = count_if (λ e. is_state State.resolved e.state) entries;
  persisted = count_if (λ e. is_state State.persisted e.state) entries;
  new = count_if (λ e. is_state State.new e.state) entries;
  unknown = λ r. count_if (gives_reason r) entries;
}

unfoldable pub compare :
    Unicode
    → List Finding
    → List Finding
    → List Finding
    → Option Read
    → Option Read
    → ConvergenceReport
unfolding classify report_of
compare u prior_findings later_findings reasons later_read prior_read =
    report_of (classify u prior_findings later_findings reasons later_read prior_read)
