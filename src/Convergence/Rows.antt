-- ===== src/Convergence/Rows.antt =====
-- convergence.py: the rows that are compared, and the classification of one.
use doug.Prelude.{Bool, Option, none, some, List, nat_eq, string_eq, list_eq, option_eq, Text}

-- The columns of a `findings` row that are read; `hunks` is its attribution.
pub record Finding : Type 0 where
  pub rule : Text
  pub label : Option Text
  pub file : Option Text
  pub hunks : Option (List Text)

-- `reads.hunks`: from paths to hashes, each path once.
abbrev pub HunkIndex : Type 0
HunkIndex = List (Text × List Text)

pub record Read : Type 0 where
  pub files_unseen : Option (List Text)
  pub files_dropped : Option (List Text)
  pub file_cut : Option Text
  pub hunks : Option HunkIndex

pub data Side : Type 0 where
  prior later : Side

pub data State : Type 0 where
  persisted resolved new unknown excluded matched : State

pub data Reason : Type 0 where
  identity_incomplete file_uncovered settled no_hunk_index left_diff not_reconfirmed
        edited_not_verified :
      Reason

pub data Basis : Type 0 where
  by_construction attributed_surviving : Basis

pub data PairDelta : Type 0 where
  unchanged changed_elsewhere : PairDelta

pub record Classification : Type 0 where
  pub side : Side
  pub finding : Finding
  pub state : State
  pub unknown_reason : Option Reason
  pub basis : Option Basis
  pub pair_delta : Option PairDelta
  pub code_changed : Option Bool

abbrev pub plain : Side → Finding → State → Classification
plain side row state = record {
  side = side;
  finding = row;
  state = state;
  unknown_reason = none;
  basis = none;
  pair_delta = none;
  code_changed = none;
}

abbrev pub abstained : Side → Finding → Reason → Classification
abstained side row reason = record (plain side row unknown) { unknown_reason = some reason }
