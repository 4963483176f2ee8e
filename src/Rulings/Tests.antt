-- ===== src/Rulings/Tests.antt =====
-- Rulings of a description, read and anchored, and their theorems at it.
use doug.Prelude.{
  if◌then◌else◌, starts_with, ◌≡◌, ◌≤◌, refl, false, none, some, List, [], ◌∷◌, ◌++◌, map, ◌==◌,
  nat_eq, All, Distinct, length, Text, codes, starts_with,
}
use doug.Convergence.Patterns.{Unicode}
use doug.Rulings.{Ruled, Why, Block, Loaded, object, not_object, Field, text, boolean, parse}
use doug.Rulings.Resolve.{Reads, resolve}
use doug.Rulings.Settled.{IsSettled, resolve-IsSettled}
use doug.Rulings.Passes.{IsBounded}
use doug.Rulings.Bounds.{parse-AreBounded}

abbrev ascii : Unicode
ascii = record { is_space = λ c. c == 32; lower = λ s. s }

-- A line starting with a brace is a whole row, as `json.loads` would read it.
abbrev a_row : List (Text × Field)
a_row =
    (codes "read", text (codes "abcdef0"))
    ∷ (codes "rule", text (codes "reader:dead-code"))
    ∷ (codes "file", text (codes "x.py"))
    ∷ (codes "verdict", text (codes "disproved"))
    ∷ (codes "changed", boolean false)
    ∷ (codes "reason", text (codes "it is called"))
    ∷ []

abbrev loads : Text → Loaded
loads s = if starts_with (codes "{") s then object a_row else not_object

abbrev description : Text
description =
    codes "text"
    ++ 10 ∷ codes "```doug-rulings"
    ++ 10 ∷ codes "{}"
    ++ 10 ∷ codes "12"
    ++ 10 ∷ codes "```"

abbrev its_block : Block
its_block = record {
  rulings =
      record {
        row = 1;
        read = codes "abcdef0";
        rule = codes "reader:dead-code";
        file = codes "x.py";
        verdict = Ruled.disproved;
        changed = false;
        reason = codes "it is called";
        ref = none;
      }
      ∷ [];
  skipped = record { row = some 2; reason = Why.not_an_object } ∷ [];
}

parsed : parse ascii loads (some description) ≡ some its_block
unfolding parse starts_with
parsed = refl

abbrev reads : Reads
reads =
    (
      codes "abcdef0123",
      record {
        rule = codes "reader:dead-code";
        file = some (codes "api/x.py");
        label = codes "unused";
      }
          ∷ [],
    )
    ∷ (codes "0123456789", [])
    ∷ []

-- The ruling is anchored to the longer path that the read stored.
anchored : map (λ x. x.file) (resolve ascii reads its_block).rulings ≡ codes "api/x.py" ∷ []
unfolding resolve
anchored = refl

resolve-IsSettled_example : IsSettled ascii reads its_block (resolve ascii reads its_block)
resolve-IsSettled_example = resolve-IsSettled ascii reads its_block

parse-AreBounded_example :
    All IsBounded its_block.rulings
    × (length its_block.rulings ≤ 64)
    × Distinct (map (λ r. r.row) its_block.rulings)
parse-AreBounded_example = parse-AreBounded ascii loads (some description) its_block parsed
