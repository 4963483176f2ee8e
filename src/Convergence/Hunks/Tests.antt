-- ===== src/Convergence/Hunks/Tests.antt =====
-- The hunks of a small patch, and the theorems on hunks at concrete lines.
use doug.Prelude.{◌≡◌, refl, List, [], ◌∷◌, Text, codes, starts_with, All, ◌++◌, arith}
use doug.Convergence.Hunks.{split_hunks, hunks_from, hash_hunk, index_from_patches, join_lines}
use doug.Convergence.Hunks.Splits.{
  IsHunk, concat, from_first_hunk, hunks_from-cuts, hash_hunk-changed, no_lines, added, removed,
  other_line,
}
use mathlib.Core.Option.{none}

abbrev old_lines : List Text
old_lines = codes "@@ -1,2 +1,2 @@" ∷ codes " same" ∷ codes "-old" ∷ codes "+new" ∷ []

abbrev moved_lines : List Text
moved_lines = codes "@@ -9,1 +9,1 @@ def f" ∷ codes "-old" ∷ codes "+new" ∷ []

abbrev patch_lines : List Text
patch_lines = codes "--- a/x.py" ∷ (old_lines ++ moved_lines)

abbrev digest : Text → Text
digest t = t

two_hunks :
    split_hunks (join_lines patch_lines) ≡ join_lines old_lines ∷ join_lines moved_lines ∷ []
unfolding split_hunks starts_with
two_hunks = refl

one_index :
    index_from_patches digest ((codes "x.py", join_lines patch_lines) ∷ [])
    ≡ (
      codes "x.py",
      join_lines (codes "-old" ∷ codes "+new" ∷ [])
          ∷ join_lines (codes "-old" ∷ codes "+new" ∷ [])
          ∷ [],
    )
      ∷ []
unfolding index_from_patches starts_with
one_index = refl

hunks_from-cuts_example :
    All IsHunk (hunks_from none patch_lines)
    × (concat (hunks_from none patch_lines) ≡ from_first_hunk patch_lines)
hunks_from-cuts_example = hunks_from-cuts patch_lines

hash_hunk-changed_example :
    hash_hunk digest (join_lines old_lines) ≡ digest (join_lines (codes "-old" ∷ codes "+new" ∷ []))
hash_hunk-changed_example =
    hash_hunk-changed digest old_lines (codes "-old" ∷ codes "+new" ∷ []) (search) (
      other_line (omega arith) (omega arith)
        (other_line (omega arith) (omega arith) (removed (added no_lines))))
