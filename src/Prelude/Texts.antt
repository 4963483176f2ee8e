-- ===== src/Prelude/Texts.antt =====
-- Python's `str` as its code points, with the methods that the program calls.
use Prim.Native.Nat.{ℕ}
use Prim.Native.Char.{code}
use Prim.Native.String.{String}
use mathlib.Core.Path.{◌≡◌, refl, ap}
use mathlib.Core.Logic.{inl, inr}
use mathlib.Core.Bool.{Bool, true, false, ◌&&◌}
use mathlib.Core.List.{List, [], ◌∷◌, ◌++◌}
use native.Mathlib.Omega.{arith}
use doug.Prelude.Tests.{nat_beq, if◌then◌else◌, Bool-cases}
use doug.Prelude.Lists.{length, drop, All}

abbrev pub Text : Type 0
Text = List ℕ

abbrev pub codes : String → Text
codes String.[] = []
codes (String.◌∷◌ c s) = code c ∷ codes s

-- `text.startswith(prefix)`.
unfoldable pub starts_with : Text → Text → Bool
starts_with [] text = true
starts_with (p ∷ ps) [] = false
starts_with (p ∷ ps) (c ∷ cs) = nat_beq c p && starts_with ps cs

pub starts_with-append : (p s : Text) → starts_with p (p ++ s) ≡ true
unfolding starts_with
starts_with-append [] s = refl
starts_with-append (c ∷ p) s = ground (arith, starts_with-append p s)

-- A text that starts with a prefix is the prefix and what `text[len(prefix):]` keeps.
pub append_of_starts_with : (p s : Text) → starts_with p s ≡ true → s ≡ p ++ drop (length p) s
unfolding starts_with
append_of_starts_with [] s h = refl
append_of_starts_with (c ∷ p) [] h = ground arith
append_of_starts_with (c ∷ p) (d ∷ s) h = ground (arith, append_of_starts_with p s)

pub drop-append : (p s : Text) → drop (length p) (p ++ s) ≡ s
drop-append [] s = refl
drop-append (c ∷ p) s = drop-append p s

-- The three parts of `text.partition(sep)` for a separator of one character.
pub record Parts : Type 0 where
  pub head : Text
  pub found : Bool
  pub tail : Text

abbrev pub cons_head : ℕ → Parts → Parts
cons_head c p = record p { head = c ∷ p.head }

unfoldable pub partition : ℕ → Text → Parts
partition sep [] = record { head = []; found = false; tail = [] }
partition sep (c ∷ cs) =
    let rest = partition sep cs in
    if nat_beq c sep then record { head = []; found = true; tail = cs } else cons_head c rest

pub partition-append :
    (sep : ℕ) (xs ys : Text)
    → All (λ c. nat_beq c sep ≡ false) xs
    → partition sep (xs ++ sep ∷ ys) ≡ record { head = xs; found = true; tail = ys }
unfolding partition
partition-append sep [] ys h = ground arith
partition-append sep (c ∷ xs) ys h = rw (h.0) (ap (cons_head c) (partition-append sep xs ys h.1))

pub append_of_partition :
    (sep : ℕ) (s : Text)
    → (partition sep s).found ≡ true
    → s ≡ (partition sep s).head ++ sep ∷ (partition sep s).tail
unfolding partition
append_of_partition sep [] h = ground arith
append_of_partition sep (c ∷ cs) h = elim (Bool-cases (nat_beq c sep)) [
  | inl e ↦ rw e (ground arith)
  | inr e ↦ rw e (ap (◌∷◌ c) (append_of_partition sep cs (rw e at h)))
]
