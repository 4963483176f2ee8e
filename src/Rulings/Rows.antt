-- ===== src/Rulings/Rows.antt =====
-- rulings.py: the rows of an author's block, the findings that they are anchored to, and why a row
-- is not read.
use doug.Prelude.{ℕ, Bool, Option, List, Text}

pub data Ruled : Type 0 where
  real disproved adjacent : Ruled

pub record Ruling : Type 0 where
  pub row : ℕ
  pub read : Text
  pub rule : Text
  pub file : Text
  pub verdict : Ruled
  pub changed : Bool
  pub reason : Text
  pub ref : Option Text

-- The texts of `Skipped.reason`, with what they name.
pub data Why : Type 0 where
  not_an_object : Why
  missing_keys : List Text → Why
  unknown_keys : List Text → Why
  bad_read bad_rule bad_verdict bad_changed : Why
  empty_field : Text → Why
  long_field : Text → ℕ → Why
  invalid_json : Text → Why
  past_the_limit : Why
  several_blocks : ℕ → Why
  swallowed_block unclosed_block : Why
  no_read : Text → Why
  several_reads : Text → ℕ → Why
  not_a_finding : Text → Why
  no_finding : Text → Text → Text → Why
  several_files : Text → ℕ → Text → Text → Why

pub record Skipped : Type 0 where
  pub row : Option ℕ
  pub reason : Why

pub record Block : Type 0 where
  pub rulings : List Ruling
  pub skipped : List Skipped

pub record PriorFinding : Type 0 where
  pub rule : Text
  pub file : Option Text
  pub label : Text

pub record ResolvedRuling : Type 0 where
  pub ruling : Ruling
  pub head_sha : Text
  pub file : Text
  pub raised : List Text

pub record Resolved : Type 0 where
  pub rulings : List ResolvedRuling
  pub skipped : List Skipped

-- A value of a JSON object, as far as a row is read, and what `json.loads` makes of a line.
pub data Field : Type 0 where
  text : Text → Field
  boolean : Bool → Field
  other : Field

pub data Loaded : Type 0 where
  invalid : Text → Loaded
  not_object : Loaded
  object : List (Text × Field) → Loaded
