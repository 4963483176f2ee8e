-- ===== src/Rulings/Resolve.antt =====
-- rulings.py: `resolve`, which anchors each ruling to what an earlier read of the pull request stored.
use doug.Prelude.{
  ℕ, suc, Bool, false, ◌&&◌, ◌||◌, not, Option, none, some, List, [], ◌∷◌, ◌++◌, map, ◌==◌, nat_eq,
  list_eq, if◌then◌else◌, length, take, drop, any, keep, find?, Text, starts_with,
}
use mathlib.Core.List.{reverse}
use doug.Convergence.Patterns.{Unicode, slugify, rule_prefix}
use doug.Rulings.{
  Ruling, Why, no_read, several_reads, not_a_finding, no_finding, several_files, Block,
  PriorFinding, ResolvedRuling, Resolved,
}

-- `text.endswith(suffix)`.
abbrev pub ends_with : Text → Text → Bool
ends_with suffix text = starts_with (reverse suffix) (reverse text)

unfoldable pub same_path : Text → Text → Bool
unfolding starts_with
same_path a b = a == b || ends_with (47 ∷ b) a || ends_with (47 ∷ a) b

-- The stored reads by head sha.
abbrev pub Reads : Type 0
Reads = List (Text × List PriorFinding)

-- What one ruling comes to.
pub data Anchored : Type 0 where
  kept : ResolvedRuling → Anchored
  skipped : Why → Anchored

module _ (u : Unicode) where
  unfoldable pub same_rule : Text → Text → Bool
  unfolding slugify starts_with
  same_rule stored ruled =
      starts_with rule_prefix stored
      && starts_with rule_prefix ruled
      && slugify u (drop (length rule_prefix) stored) == slugify u (drop (length rule_prefix) ruled)

  abbrev pub on_path : Text → Option Text → Bool
  on_path file none = false
  on_path file (some f) = same_path f file

  -- A stored finding that a ruling may name.
  unfoldable pub is_named : Ruling → PriorFinding → Bool
  unfolding same_rule same_path
  is_named r f = same_rule f.rule r.rule && on_path r.file f.file

  -- `{f.file for f in matches}`.
  abbrev pub add_file : Option Text → List Text → List Text
  add_file none files = files
  add_file (some f) files = if any (λ g. g == f) files then files else f ∷ files

  unfoldable pub files_of : List PriorFinding → List Text
  files_of [] = []
  files_of (f ∷ fs) = add_file f.file (files_of fs)

  -- After the sha: the files that the matching findings are on.
  abbrev pub on_files : Ruling → Text → List PriorFinding → List Text → Anchored
  on_files r sha matches [] = skipped (no_finding (take 12 sha) r.rule r.file)
  on_files r sha matches (file ∷ []) =
      kept (record { ruling = r; head_sha = sha; file = file; raised = map (λ f. f.label) matches })
  on_files r sha matches (file ∷ other ∷ files) =
      skipped (several_files r.file (suc (suc (length files))) (take 12 sha) r.rule)

  abbrev pub findings_at : Option (Text × List PriorFinding) → List PriorFinding
  findings_at none = []
  findings_at (some (sha, fs)) = fs

  -- `reads[sha]`.
  abbrev pub findings_of : Text → Reads → List PriorFinding
  findings_of sha reads = findings_at (find? (λ e. e.0 == sha) reads)

  abbrev pub at_shas : Ruling → Reads → List Text → Anchored
  at_shas r reads [] = skipped (no_read r.read)
  at_shas r reads (sha ∷ []) =
      if not (starts_with rule_prefix r.rule)
      then skipped (not_a_finding r.rule)
      else let matches = keep (is_named r) (findings_of sha reads) in
        on_files r sha matches (files_of matches)
  at_shas r reads (sha ∷ other ∷ shas) = skipped (several_reads r.read (suc (suc (length shas))))

  -- The body of the loop.
  unfoldable pub anchor : Reads → Ruling → Anchored
  unfolding is_named files_of starts_with
  anchor reads r = at_shas r reads (keep (λ sha. starts_with r.read sha) (map (λ e. e.0) reads))

  abbrev pub add_anchored : ℕ → Anchored → Resolved → Resolved
  add_anchored row (kept x) rest = record rest { rulings = x ∷ rest.rulings }
  add_anchored row (skipped w) rest = record rest {
    skipped = record { row = some row; reason = w } ∷ rest.skipped;
  }

  unfoldable pub resolve_all : Reads → List Ruling → Resolved
  unfolding anchor
  resolve_all reads [] = record { rulings = []; skipped = [] }
  resolve_all reads (r ∷ rs) = add_anchored r.row (anchor reads r) (resolve_all reads rs)

  unfoldable pub resolve : Reads → Block → Resolved
  unfolding resolve_all
  resolve reads block =
      let rest = resolve_all reads block.rulings in
      record rest { skipped = block.skipped ++ rest.skipped }
