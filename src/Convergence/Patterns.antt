-- ===== src/Convergence/Patterns.antt =====
-- api/doug/patterns.py: one name for each defect pattern.
use mathlib.Core.List.{reverse}
use doug.Prelude.{
  ℕ, Bool, false, ◌&&◌, ◌||◌, not, Option, none, some, List, [], ◌∷◌, leb, ◌==◌, nat_eq, list_eq,
  if◌then◌else◌, length, drop, Text, codes, starts_with,
}

-- The Unicode tables behind `str.isspace` and `str.lower`.
pub record Unicode : Type 0 where
  pub is_space : ℕ → Bool
  pub lower : Text → Text

unfoldable pub lstrip : (ℕ → Bool) → Text → Text
lstrip p [] = []
lstrip p (c ∷ cs) = let rest = lstrip p cs in if p c then rest else c ∷ cs

unfoldable pub strip : (ℕ → Bool) → Text → Text
unfolding lstrip
strip p s = reverse (lstrip p (reverse (lstrip p s)))

-- `[a-z0-9]`.
abbrev pub is_slug_char : ℕ → Bool
is_slug_char c = leb 97 c && leb c 122 || leb 48 c && leb c 57

abbrev pub dash : ℕ
dash = 45

-- `_NOT_SLUG.sub("-", text)`; the flag says that the run before `text` is already a dash.
pub fold_runs : Bool → Text → Text
fold_runs in_run [] = []
fold_runs in_run (c ∷ cs) =
    let rest = fold_runs (not (is_slug_char c)) cs in
    if is_slug_char c then c ∷ rest else if in_run then rest else dash ∷ rest

-- Python's `or` on texts.
abbrev pub or_else : Text → Text → Text
or_else [] t = t
or_else (c ∷ s) t = c ∷ s

unfoldable pub slugify : Unicode → Text → Text
unfolding strip fold_runs
slugify u raw =
    let stripped = strip u.is_space raw in
    let folded = strip (λ c. c == dash) (fold_runs false (u.lower stripped)) in
    or_else folded (or_else stripped raw)

abbrev pub slug_merges : List (Text × Text)
slug_merges =
    (codes "missing-error-handling", codes "error-handling-gap")
    ∷ (codes "unhandled-exception", codes "error-handling-gap")
    ∷ (codes "unhandled-io-error", codes "error-handling-gap")
    ∷ (codes "behavior-regression", codes "behavior-change")
    ∷ (codes "circular-import", codes "import-cycle")
    ∷ (codes "import-cycle-risk", codes "import-cycle")
    ∷ (codes "metric-cardinality", codes "metrics-cardinality")
    ∷ (codes "unchecked-type-conversion", codes "type-coercion")
    ∷ (codes "unsafe-type-coercion", codes "type-coercion")
    ∷ (codes "dead-reference-after-module-removal", codes "dead-reference")
    ∷ []

-- `merges.get(slug, slug)`.
pub merged_in : List (Text × Text) → Text → Text
merged_in [] slug = slug
merged_in ((from, to) ∷ rest) slug =
    let other = merged_in rest slug in if from == slug then to else other

pub normalize : Unicode → Text → Text
unfolding slugify merged_in
normalize u slug = merged_in slug_merges (slugify u slug)

abbrev pub rule_prefix : Text
rule_prefix = codes "reader:"

unfoldable pub from_rule : Unicode → Text → Option Text
unfolding normalize
from_rule u rule =
    if not (starts_with rule_prefix rule)
    then none
    else some (normalize u (drop (length rule_prefix) rule))
