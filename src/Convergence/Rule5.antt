-- ===== src/Convergence/Rule5.antt =====
-- convergence.py: the evidence of the stored hunks, `_rule5`, `_code_changed` and `_uncovered`.
use doug.Prelude.{
  ℕ, suc, Bool, true, false, ◌&&◌, ◌||◌, not, Option, none, some, List, [], ◌∷◌, ◌++◌, leb, ◌==◌,
  nat_eq, string_eq, list_eq, option_eq, if◌then◌else◌, length, any, all, count_if, Text,
}
use doug.Convergence.Rows.{
  Finding, HunkIndex, Read, prior, persisted, file_uncovered, no_hunk_index, left_diff,
  not_reconfirmed, edited_not_verified, by_construction, attributed_surviving, unchanged,
  changed_elsewhere, Classification, plain, abstained,
}

-- `x in (xs or [])`.
abbrev pub listed : Text → Option (List Text) → Bool
listed x none = false
listed x (some xs) = any (λ y. y == x) xs

-- Counters of hashes: the count of one, equality, and the size of the intersection.
abbrev pub count : Text → List Text → ℕ
count x xs = count_if (λ y. y == x) xs

unfoldable pub same_counts : List Text → List Text → Bool
same_counts xs ys = all (λ x. count x xs == count x ys) (xs ++ ys)

-- `not (xs - ys)`.
unfoldable pub within : List Text → List Text → Bool
within xs ys = all (λ x. leb (count x xs) (count x ys)) xs

abbrev pub remove_one : Text → List Text → List Text
remove_one x [] = []
remove_one x (y ∷ ys) = let rest = remove_one x ys in if y == x then ys else y ∷ rest

-- `sum((xs & ys).values())`.
pub shared : List Text → List Text → ℕ
shared [] ys = 0
shared (x ∷ xs) ys =
    let present = any (λ y. y == x) ys in
    let rest = shared xs (if present then remove_one x ys else ys) in
    if present then suc rest else rest

-- `index.get(file)`, and equality of two indexes.
abbrev pub hashes_at : Text → HunkIndex → Option (List Text)
hashes_at file [] = none
hashes_at file ((f, hashes) ∷ rest) =
    let other = hashes_at file rest in if f == file then some hashes else other

abbrev pub or_empty : Option (List Text) → List Text
or_empty none = []
or_empty (some xs) = xs

pub same_index : HunkIndex → HunkIndex → Bool
same_index a b = length a == length b && all (λ e. hashes_at e.0 b == some e.1) a

abbrev pub index_of : Option Read → Option HunkIndex
index_of none = none
index_of (some r) = r.hunks

-- The rest of rule 5 where part of the file's hunks survive.
unfoldable pub by_attribution : Finding → List Text → List Text → List Text → Classification
by_attribution row [] prior_hashes later_hashes = abstained prior row not_reconfirmed
by_attribution row (h ∷ hs) prior_hashes later_hashes =
    let att = h ∷ hs in
    if within att prior_hashes
    then (if within att later_hashes
        then record (plain prior row persisted) { basis = some attributed_surviving }
        else if shared att later_hashes == 0
        then abstained prior row edited_not_verified
        else abstained prior row not_reconfirmed)
    else abstained prior row not_reconfirmed

abbrev pub has_hashes : List Text → Bool
has_hashes [] = false
has_hashes (_ ∷ _) = true

unfoldable pub by_hunks : Finding → List Text → HunkIndex → HunkIndex → Text → Classification
unfolding same_counts shared same_index by_attribution
by_hunks row prior_hashes prior_index later_index file =
    let later_hashes = or_empty (hashes_at file later_index) in
    if same_counts prior_hashes later_hashes
    then record (plain prior row persisted) {
      basis = some by_construction;
      pair_delta =
          some (if same_index prior_index later_index then unchanged else changed_elsewhere);
    }
    else if shared prior_hashes later_hashes == 0
    then (if has_hashes later_hashes
        then abstained prior row edited_not_verified
        else abstained prior row left_diff)
    else by_attribution row (or_empty row.hunks) prior_hashes later_hashes

abbrev pub in_prior : Finding → Text → HunkIndex → HunkIndex → Option (List Text) → Classification
in_prior row file prior_index later_index none = abstained prior row file_uncovered
in_prior row file prior_index later_index (some hashes) =
    by_hunks row hashes prior_index later_index file

abbrev pub with_indexes : Finding → Text → Option HunkIndex → Option HunkIndex → Classification
with_indexes row file (some p) (some l) = in_prior row file p l (hashes_at file p)
with_indexes row file _ _ = abstained prior row no_hunk_index

unfoldable pub rule5 : Finding → Text → Option Read → Option Read → Classification
unfolding by_hunks
rule5 row file prior_read later_read =
    with_indexes row file (index_of prior_read) (index_of later_read)

abbrev pub delta_moved : Text → Option HunkIndex → Option HunkIndex → Option Bool
delta_moved file (some p) (some l) =
    some (not (same_counts (or_empty (hashes_at file p)) (or_empty (hashes_at file l))))
delta_moved file _ _ = none

unfoldable pub code_moved : Text → Option Read → Option Read → Option Bool
unfolding same_counts
code_moved file prior_read later_read = delta_moved file (index_of prior_read) (index_of later_read)

-- `_uncovered`.
unfoldable pub uncovered : Text → Option Read → Bool
uncovered file none = true
uncovered file (some r) =
    listed file r.files_unseen || listed file r.files_dropped || r.file_cut == some file
