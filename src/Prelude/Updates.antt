-- ===== src/Prelude/Updates.antt =====
-- Lists as tables: what an update by a test keeps, and searches by a unique key.
use Prim.Native.Nat.{ℕ, ◌+◌}
use mathlib.Core.Path.{◌≡◌, refl, sym, ap, ◌∙◌}
use mathlib.Core.Logic.{◌≢◌, inl, inr}
use mathlib.Core.Bool.{Bool, true, false}
use mathlib.Core.Option.{none, some}
use mathlib.Core.List.{List, [], ◌∷◌, map}
use native.Mathlib.Omega.{arith}
use doug.Prelude.Tests.{nat_beq, if◌then◌else◌, Bool-cases, Option-cases}
use doug.Prelude.Lists.{
  any, count_if, find?, All, All-at, find?-some, find?-none, update_where, Distinct, In, here,
  there,
}
use doug.Prelude.Sequences.{In-map}

-- Two lists of one length whose elements are related, each to the one in its place.
pub data Each {ℓ κ} {A : Type ℓ} (R : A → A → Type κ) : List A → List A → Type (ℓ ⊔ κ) where
  none_left : Each R [] []
  and_each : {x y : A} {xs ys : List A} → R x y → Each R xs ys → Each R (x ∷ xs) (y ∷ ys)

module _ {ℓ} {A : Type ℓ} where
  pub Each-update_where {κ} :
      (R : A → A → Type κ) (p : A → Bool) (f : A → A)
      → ((x : A) → R x (if p x then f x else x))
      → (xs : List A) → Each R xs (update_where p f xs)
  Each-update_where R p f h [] = none_left
  Each-update_where R p f h (x ∷ xs) = and_each (h x) (Each-update_where R p f h xs)

  pub All-update_where {κ} :
      (P : A → Type κ) (p : A → Bool) (f : A → A)
      → ((x : A) → P x → p x ≡ true → P (f x))
      → (xs : List A) → All P xs
      → All P (update_where p f xs)
  All-update_where P p f keeps [] h = tt
  All-update_where P p f keeps (x ∷ xs) h = (
    elim (Bool-cases (p x)) [ inl e ↦ rw e (keeps x h.0 e) | inr e ↦ rw e h.0 ],
    All-update_where P p f keeps xs h.1,
  )

  pub update_where_none :
      (p : A → Bool) (f : A → A) (xs : List A)
      → All (λ x. p x ≡ false) xs
      → update_where p f xs ≡ xs
  update_where_none p f [] h = refl
  update_where_none p f (x ∷ xs) h = rw (h.0) (ap (◌∷◌ x) (update_where_none p f xs h.1))

  pub any_none : (p : A → Bool) (xs : List A) → All (λ x. p x ≡ false) xs → any p xs ≡ false
  any_none p [] h = refl
  any_none p (x ∷ xs) h = rw (h.0) (any_none p xs h.1)

  pub find?-none_of_All :
      (p : A → Bool) (xs : List A) → All (λ x. p x ≡ false) xs → find? p xs ≡ none
  find?-none_of_All p [] h = refl
  find?-none_of_All p (x ∷ xs) h = rw (h.0) (find?-none_of_All p xs h.1)

  pub map-update_where {κ} :
      {B : Type κ} (k : A → B) (p : A → Bool) (f : A → A)
      → ((x : A) → k (f x) ≡ k x)
      → (xs : List A) → map k (update_where p f xs) ≡ map k xs
  map-update_where k p f same [] = refl
  map-update_where k p f same (x ∷ xs) = elim (Bool-cases (p x)) [
    | inl e ↦ rw e (rw (same x) (ap (◌∷◌ (k x)) (map-update_where k p f same xs)))
    | inr e ↦ rw e (ap (◌∷◌ (k x)) (map-update_where k p f same xs))
  ]

  -- A search by a property that the update keeps finds the updated element.
  pub find?-update_where :
      (q p : A → Bool) (f : A → A)
      → ((x : A) → q (f x) ≡ q x)
      → (xs : List A) {x : A} → find? q xs ≡ some x
      → find? q (update_where p f xs) ≡ some (if p x then f x else x)
  find?-update_where q p f same [] h = ground arith
  find?-update_where q p f same (y ∷ ys) {x} h = elim (Bool-cases (p y)) [
    | inl e ↦ ground (arith, same y, find?-update_where q p f same ys {x = x})
    | inr e ↦ ground (arith, find?-update_where q p f same ys {x = x})
  ]

  -- Where a key is unique, a search by it finds the element.
  pub find?-by_key :
      (k : A → ℕ) (xs : List A)
      → Distinct (map k xs)
      → {x : A} → In x xs
      → find? (λ y. nat_beq (k y) (k x)) xs ≡ some x
  find?-by_key k [] d m = elim m [ ]
  find?-by_key k (y ∷ ys) d here = ground arith
  find?-by_key k (y ∷ ys) d {x} (there m) =
      let apart = All-at (λ n. k y ≢ n) d.0 (In-map k m) in ground (arith, find?-by_key k ys d.1 m)

  -- What holds of each element after its own update holds of the updated list.
  pub All-each_updated {κ} :
      (P : A → Type κ) (p : A → Bool) (f : A → A)
      → ((x : A) → P (if p x then f x else x))
      → (xs : List A) → All P (update_where p f xs)
  All-each_updated P p f h [] = tt
  All-each_updated P p f h (x ∷ xs) = (h x, All-each_updated P p f h xs)

  pub count_if-update_where :
      (r p : A → Bool) (f : A → A)
      → ((x : A) → p x ≡ true → (r x ≡ true) × (r (f x) ≡ false))
      → (xs : List A) → count_if r (update_where p f xs) + count_if p xs ≡ count_if r xs
  count_if-update_where r p f h [] = refl
  count_if-update_where r p f h (x ∷ xs) = elim (Bool-cases (p x)) [
    | inl e ↦ rw (e, (h x e).0, (h x e).1) (omega (arith, count_if-update_where r p f h xs))
    | inr e ↦ elim (Bool-cases (r x)) [
      | inl t ↦ rw (e, t) (omega (arith, count_if-update_where r p f h xs))
      | inr t ↦ rw (e, t) (omega (arith, count_if-update_where r p f h xs))
    ]
  ]

  -- Where a key is unique, it tells the elements apart.
  pub In-unique {κ} :
      {B : Type κ} (k : A → B) (xs : List A) {x y : A}
      → Distinct (map k xs)
      → In x xs
      → In y xs
      → k x ≡ k y
      → x ≡ y
  In-unique k [] d m n e = elim m [ ]
  In-unique k (z ∷ zs) d here here e = refl
  In-unique k (z ∷ zs) d here (there n) e = absurd (All-at (λ b. k z ≢ b) d.0 (In-map k n) e)
  In-unique k (z ∷ zs) d (there m) here e = absurd (All-at (λ b. k z ≢ b) d.0 (In-map k m) (sym e))
  In-unique k (z ∷ zs) d (there m) (there n) e = In-unique k zs d.1 m n e

  -- An update that leaves a test as it was, and one that makes it true of each updated element.
  pub count_if_same :
      (r p : A → Bool) (f : A → A)
      → ((x : A) → p x ≡ true → r (f x) ≡ r x)
      → (xs : List A) → count_if r (update_where p f xs) ≡ count_if r xs
  count_if_same r p f h [] = refl
  count_if_same r p f h (x ∷ xs) = elim (Bool-cases (p x)) [
    | inl e ↦ rw (e, h x e, count_if_same r p f h xs) refl
    | inr e ↦ rw (e, count_if_same r p f h xs) refl
  ]

  pub count_if_gained :
      (r p : A → Bool) (f : A → A)
      → ((x : A) → p x ≡ true → (r x ≡ false) × (r (f x) ≡ true))
      → (xs : List A) → count_if r (update_where p f xs) ≡ count_if r xs + count_if p xs
  count_if_gained r p f h [] = refl
  count_if_gained r p f h (x ∷ xs) = elim (Bool-cases (p x)) [
    | inl e ↦ rw (e, (h x e).0, (h x e).1) (omega (arith, count_if_gained r p f h xs))
    | inr e ↦ elim (Bool-cases (r x)) [
      | inl t ↦ rw (e, t) (omega (arith, count_if_gained r p f h xs))
      | inr t ↦ rw (e, t) (omega (arith, count_if_gained r p f h xs))
    ]
  ]

  -- Where a key is unique and the test fixes it, the search finds the element that passes.
  pub find?-unique {κ} :
      {B : Type κ} (k : A → B) (p : A → Bool) (xs : List A)
      → Distinct (map k xs)
      → ((x y : A) → p x ≡ true → p y ≡ true → k x ≡ k y)
      → {x : A} → In x xs
      → p x ≡ true
      → find? p xs ≡ some x
  find?-unique k p xs d same {x} m e = elim (Option-cases (find? p xs)) [
    | inl lost ↦ let no : p x ≡ false = find?-none p xs lost m in ground arith
    | inr (y, found) ↦
        let (n, f) = find?-some p xs found in
        let it : y ≡ x = In-unique k xs d n m (same y x f e) in found ∙ ap some it
  ]
