-- ===== src/Prelude/Equality.antt =====
-- Decidable equality as an interface: one operator for the types whose values the program compares.
use Prim.Native.Nat.{ℕ}
use Prim.Native.String.{String}
use text.Mathlib.Text.{◌==◌ as str_eq}
use text.Mathlib.TextEquality.{eq_iff}
use mathlib.Core.Path.{◌≡◌, refl}
use mathlib.Core.Logic.{◌↔◌}
use mathlib.Core.Bool.{Bool, true, false, ◌&&◌}
use mathlib.Core.Option.{Option, none, some}
use mathlib.Core.List.{List, [], ◌∷◌}
use native.Mathlib.Omega.{arith}
use doug.Prelude.Tests.{nat_beq, nat_beq_iff}

-- A Boolean test that decides equality.
pub record EqTest {ℓ} (T : Type ℓ) : Type ℓ where
  pub same : T → T → Bool
  pub same_iff : (x y : T) → (same x y ≡ true) ↔ (x ≡ y)

-- Python's `==` on such a type.
infix 50 ◌==◌
abbrev pub ◌==◌ {ℓ} : {T : Type ℓ} ⦃test : EqTest T⦄ → T → T → Bool
◌==◌ ⦃test⦄ x y = test.same x y

module _ {ℓ} {A : Type ℓ} ⦃e : EqTest A⦄ where
  abbrev pub list_beq : List A → List A → Bool
  list_beq [] [] = true
  list_beq (x ∷ xs) (y ∷ ys) = e.same x y && list_beq xs ys
  list_beq _ _ = false

  list_beq_sound : (xs ys : List A) → list_beq xs ys ≡ true → xs ≡ ys
  list_beq_sound [] [] h = refl
  list_beq_sound [] (y ∷ ys) h = ground arith
  list_beq_sound (x ∷ xs) [] h = ground arith
  list_beq_sound (x ∷ xs) (y ∷ ys) h = ground (arith, e.same_iff x y, list_beq_sound xs ys)

  pub list_beq_refl : (xs : List A) → list_beq xs xs ≡ true
  list_beq_refl [] = refl
  list_beq_refl (x ∷ xs) = ground (arith, e.same_iff x x, list_beq_refl xs)

  pub list_beq_iff : (xs ys : List A) → (list_beq xs ys ≡ true) ↔ (xs ≡ ys)
  list_beq_iff xs ys = (list_beq_sound xs ys, λ p. ground (arith, list_beq_refl xs))

  abbrev pub option_beq : Option A → Option A → Bool
  option_beq none none = true
  option_beq (some x) (some y) = e.same x y
  option_beq _ _ = false

  pub option_beq_iff : (x y : Option A) → (option_beq x y ≡ true) ↔ (x ≡ y)
  option_beq_iff none none = ground arith
  option_beq_iff none (some b) = ground arith
  option_beq_iff (some a) none = ground arith
  option_beq_iff (some a) (some b) = ground (arith, e.same_iff a b)

instance abbrev pub list_eq {ℓ} : {A : Type ℓ} ⦃e : EqTest A⦄ → EqTest (List A)
list_eq = record { same = list_beq; same_iff = list_beq_iff }

instance abbrev pub option_eq {ℓ} : {A : Type ℓ} ⦃e : EqTest A⦄ → EqTest (Option A)
option_eq = record { same = option_beq; same_iff = option_beq_iff }

instance abbrev pub string_eq : EqTest String
string_eq = record { same = str_eq; same_iff = eq_iff }

instance abbrev pub nat_eq : EqTest ℕ
nat_eq = record { same = nat_beq; same_iff = nat_beq_iff }
