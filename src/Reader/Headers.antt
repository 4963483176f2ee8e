-- ===== src/Reader/Headers.antt =====
-- api/doug/reader.py: the matches of `_FILE_HEADER`, the regular expression of a file's header in a
-- diff.
--
-- No class of the expression holds the character that follows it, so a line matches in one way at
-- most, which reading it from its end finds.
use doug.Prelude.{
  ℕ, suc, ◌+◌, Bool, ◌&&◌, Option, none, some, List, [], ◌∷◌, leb, ◌==◌, nat_eq, if◌then◌else◌,
  length, drop, Text, codes, starts_with,
}
use mathlib.Core.List.{reverse}

pub record Match : Type 0 where
  pub name : Text
  pub start : ℕ
  pub end : ℕ

-- One character, or a run of at least one character of a class.
pub data Atom : Type 0 where
  one : ℕ → Atom
  many : (ℕ → Bool) → Atom

pub drop_while : (ℕ → Bool) → Text → Text
drop_while test [] = []
drop_while test (c ∷ text) = let rest = drop_while test text in if test c then rest else c ∷ text

abbrev pub strip_atom : Atom → Text → Option Text
strip_atom (one a) [] = none
strip_atom (one a) (c ∷ text) = if c == a then some text else none
strip_atom (many test) [] = none
strip_atom (many test) (c ∷ text) = if test c then some (drop_while test text) else none

pub strip_atoms : List Atom → Option Text → Option Text
strip_atoms [] text = text
strip_atoms (atom ∷ atoms) none = none
strip_atoms (atom ∷ atoms) (some text) = strip_atoms atoms (strip_atom atom text)

-- `text.split("\n")`.
abbrev pub cons_to_line : ℕ → List Text → List Text
cons_to_line c [] = (c ∷ []) ∷ []
cons_to_line c (line ∷ lines) = (c ∷ line) ∷ lines

pub split_at_newlines : Text → List Text
split_at_newlines [] = [] ∷ []
split_at_newlines (c ∷ text) =
    let rest = split_at_newlines text in if c == 10 then [] ∷ rest else cons_to_line c rest

abbrev pub is_lower : ℕ → Bool
is_lower c = leb 97 c && leb c 122

abbrev pub cons_match : Option Text → ℕ → ℕ → List Match → List Match
cons_match none start end rest = rest
cons_match (some name) start end rest = record { name = name; start = start; end = end } ∷ rest

abbrev pub nonempty_name : Option Text → Option Text
nonempty_name none = none
nonempty_name (some []) = none
nonempty_name (some (c ∷ name)) = some (reverse (c ∷ name))

-- `\d` of a `str` is Unicode's decimal digits.
module _ (is_decimal : ℕ → Bool) where
  -- ` \([a-z]+, \+\d+/-\d+\)$`, from its end.
  abbrev pub trailer : List Atom
  trailer =
      one 41
      ∷ many is_decimal
      ∷ one 45
      ∷ one 47
      ∷ many is_decimal
      ∷ one 43
      ∷ one 32
      ∷ one 44
      ∷ many is_lower
      ∷ one 40
      ∷ one 32
      ∷ []

  -- `m.group(1)` for a line that matches.
  pub header_name : Text → Option Text
  unfolding starts_with strip_atoms drop_while
  header_name line =
      if starts_with (codes "### ") line
      then nonempty_name (strip_atoms trailer (some (reverse (drop 4 line))))
      else none

  pub matches_from : ℕ → List Text → List Match
  unfolding header_name
  matches_from start [] = []
  matches_from start (line ∷ lines) =
      let end = start + length line in
      cons_match (header_name line) start end (matches_from (suc end) lines)

  -- `list(_FILE_HEADER.finditer(diff))`.
  unfoldable pub file_headers : Text → List Match
  unfolding split_at_newlines matches_from
  file_headers diff = matches_from 0 (split_at_newlines diff)
