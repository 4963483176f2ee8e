-- ===== src/Rulings.antt =====
-- api/doug/rulings.py: the author's rulings in a pull request's description, and the stored findings
-- that they are anchored to.
mod Rows
pub mod Checks
pub mod Fences
pub mod Resolve
pub mod Anchors
pub mod Settled
pub mod Passes
pub mod Bounds
mod Tests
unfoldable pub use Rows.*
use doug.Prelude.{
  ℕ, suc, ◌+◌, Bool, true, false, ◌&&◌, ◌||◌, not, Option, none, some, List, [], ◌∷◌, ◌++◌, map,
  ltb, leb, ◌==◌, nat_eq, list_eq, if◌then◌else◌, length, drop, any, keep, find?, sort_by, Text,
  codes, starts_with, partition, Parts,
}
use doug.Convergence.Patterns.{Unicode, strip, slugify, rule_prefix}
use doug.Convergence.Hunks.{splitlines}
use Fences.{Found, scan}
use Checks.{Checked, fine, wrong, row_of}

abbrev pub max_rows : ℕ
max_rows = 64

abbrev pub loaded_row : (ℕ → Bool) → ℕ → Loaded → Checked Ruling
loaded_row is_space row (invalid message) = wrong (invalid_json message)
loaded_row is_space row not_object = wrong not_an_object
loaded_row is_space row (object obj) = row_of is_space row obj

abbrev pub add_row : ℕ → Checked Ruling → Block → Block
add_row n (fine r) rest = record rest { rulings = r ∷ rest.rulings }
add_row n (wrong w) rest = record rest {
  skipped = record { row = some n; reason = w } ∷ rest.skipped;
}

abbrev pub skips : Option ℕ → Why → Block
skips row w = record { rulings = []; skipped = record { row = row; reason = w } ∷ [] }

module _ (u : Unicode) (loads : Text → Loaded) where
  -- The loop of `parse` over the lines of the block, numbered from `n`, `counted` of them read.
  pub rows_from : ℕ → ℕ → List Text → Block
  unfolding row_of strip
  rows_from n counted [] = record { rulings = []; skipped = [] }
  rows_from n counted (line ∷ lines) =
      let blank = strip u.is_space line == [] in
      let rest = rows_from (suc n) (if blank then counted else suc counted) lines in
      if blank
      then rest
      else if ltb max_rows (suc counted)
      then skips (some n) past_the_limit
      else add_row n (loaded_row u.is_space n (loads line)) rest

  abbrev pub unread_block : Found → Option Why
  unread_block f =
      let found = length f.blocks + f.unclosed + f.swallowed in
      if ltb 1 found
      then some (several_blocks found)
      else if ltb 0 f.swallowed
      then some swallowed_block
      else if ltb 0 f.unclosed
      then some unclosed_block
      else none

  abbrev pub only_block : List (List Text) → Block
  only_block [] = record { rulings = []; skipped = [] }
  only_block (lines ∷ more) = rows_from 1 0 lines

  abbrev pub read_found : Found → Option Why → Option Block
  read_found f (some w) = some (skips none w)
  read_found f none = some (only_block f.blocks)

  pub parse : Option Text → Option Block
  unfolding scan splitlines rows_from
  parse none = none
  parse (some description) =
      let f = scan u none (splitlines false description) in
      if length f.blocks + f.unclosed + f.swallowed == 0
      then none
      else read_found f (unread_block f)
