-- ===== src/Convergence/Hunks.antt =====
-- api/doug/hunks.py: the hunks of a patch, and the hashes that index them.
mod Splits
mod Tests
use doug.Prelude.{
  ℕ, Bool, true, false, ◌&&◌, ◌||◌, not, Option, none, some, List, [], ◌∷◌, ◌++◌, map, leb, ◌==◌,
  nat_eq, if◌then◌else◌, any, keep, Text, codes, starts_with,
}

-- The line boundaries of `str.splitlines`; "\r\n" is one.
abbrev pub is_break : ℕ → Bool
is_break c = leb 10 c && leb c 13 || leb 28 c && leb c 30 || c == 133 || c == 8232 || c == 8233

abbrev pub cons_line : ℕ → List Text → List Text
cons_line c [] = (c ∷ []) ∷ []
cons_line c (l ∷ ls) = (c ∷ l) ∷ ls

-- `text.splitlines()`; the flag says that a carriage return stands before the text.
unfoldable pub splitlines : Bool → Text → List Text
splitlines after_cr [] = []
splitlines after_cr (c ∷ cs) =
    let rest = splitlines (c == 13) cs in
    if after_cr && c == 10 then rest else if is_break c then [] ∷ rest else cons_line c rest

-- `"\n".join(lines)`.
abbrev pub join_lines : List Text → Text
join_lines [] = []
join_lines (l ∷ []) = l
join_lines (l ∷ m ∷ ls) = l ++ 10 ∷ join_lines (m ∷ ls)

abbrev pub opens_hunk : Text → Bool
opens_hunk line = starts_with (codes "@@") line

abbrev pub flush : Option (List Text) → List (List Text)
flush none = []
flush (some hunk) = hunk ∷ []

abbrev pub append_line : Option (List Text) → Text → Option (List Text)
append_line none line = none
append_line (some hunk) line = some (hunk ++ line ∷ [])

-- The loop of `split_hunks`, with the hunk that is being read.
pub hunks_from : Option (List Text) → List Text → List (List Text)
hunks_from current [] = flush current
hunks_from current (line ∷ lines) =
    let opens = opens_hunk line in
    let rest = hunks_from (if opens then some (line ∷ []) else append_line current line) lines in
    if opens then flush current ++ rest else rest

unfoldable pub split_hunks : Text → List Text
unfolding splitlines hunks_from
split_hunks patch = map join_lines (hunks_from none (splitlines false patch))

abbrev pub is_changed : Text → Bool
is_changed line =
    (starts_with (codes "+") line || starts_with (codes "-") line) && not (opens_hunk line)

module _ (sha256 : Text → Text) where
  unfoldable pub hash_hunk : Text → Text
  unfolding splitlines
  hash_hunk hunk = sha256 (join_lines (keep is_changed (splitlines false hunk)))

  pub index_from_patches : List (Text × Text) → List (Text × List Text)
  unfolding hash_hunk split_hunks
  index_from_patches patches = map (λ e. (e.0, map hash_hunk (split_hunks e.1))) patches
