-- ===== src/Prelude/Sequences.antt =====
-- Lists: predicates, lengths and counts over their parts, and the sort of an `ORDER BY`.
use Prim.Native.Nat.{ℕ, zero, suc, ◌+◌}
use mathlib.Core.Path.{◌≡◌, refl, ap}
use mathlib.Core.Logic.{inl, inr}
use mathlib.Core.Bool.{Bool, true, false, false≢true}
use mathlib.Core.List.{List, [], ◌∷◌, ◌++◌, map, reverse, reverse-append}
use native.Mathlib.Omega.{arith}
use doug.Prelude.Tests.{if◌then◌else◌, Bool-cases}
use doug.Prelude.Lists.{length, take, drop, length-append, any, all, count_if, All, In, here, there}

module _ {ℓ} {A : Type ℓ} where
  pub All-map {κ μ} :
      {B : Type κ} (P : B → Type μ) (k : A → B) (xs : List A)
      → All (λ x. P (k x)) xs
      → All P (map k xs)
  All-map P k [] h = tt
  All-map P k (x ∷ xs) h = (h.0, All-map P k xs h.1)

  pub All-of_any-false : (p : A → Bool) (xs : List A) → any p xs ≡ false → All (λ x. p x ≡ false) xs
  All-of_any-false p [] h = tt
  All-of_any-false p (x ∷ xs) h = (ground arith, All-of_any-false p xs (ground arith))

  pub any-true : (p : A → Bool) (xs : List A) → any p xs ≡ true → (x : A) × In x xs × (p x ≡ true)
  any-true p [] h = absurd (false≢true h)
  any-true p (x ∷ xs) h = elim (Bool-cases (p x)) [
    | inl e ↦ (x, here, e)
    | inr e ↦ let (y, m, f) = any-true p xs (ground arith) in (y, there m, f)
  ]

  pub any_same : (p q : A → Bool) → ((x : A) → p x ≡ q x) → (xs : List A) → any p xs ≡ any q xs
  any_same p q h [] = refl
  any_same p q h (x ∷ xs) = rw (h x, any_same p q h xs) refl

  pub In-any : (p : A → Bool) {x : A} {xs : List A} → In x xs → p x ≡ true → any p xs ≡ true
  In-any p here e = rw e
  In-any p {xs = y ∷ ys} (there m) e = ground (arith, In-any p m e)

  pub All-of_In {κ} : (P : A → Type κ) (xs : List A) → ((x : A) → In x xs → P x) → All P xs
  All-of_In P [] h = tt
  All-of_In P (x ∷ xs) h = (h x here, All-of_In P xs (λ y m. h y (there m)))

  pub In-map {κ} : {B : Type κ} (k : A → B) {x : A} {xs : List A} → In x xs → In (k x) (map k xs)
  In-map k here = here
  In-map k (there m) = there (In-map k m)

  pub All-append {κ} : (P : A → Type κ) (xs ys : List A) → All P xs → All P ys → All P (xs ++ ys)
  All-append P [] ys h k = k
  All-append P (x ∷ xs) ys h k = (h.0, All-append P xs ys h.1 k)

  pub All-reverse {κ} : (P : A → Type κ) (xs : List A) → All P xs → All P (reverse xs)
  All-reverse P [] h = tt
  All-reverse P (x ∷ xs) h =
      rw (reverse-append (x ∷ []) xs)
        (All-append P (reverse xs) (x ∷ []) (All-reverse P xs h.1) (h.0, tt))

  pub length-reverse : (xs : List A) → length (reverse xs) ≡ length xs
  length-reverse [] = refl
  length-reverse (x ∷ xs) =
      rw (reverse-append (x ∷ []) xs)
        (omega (arith, length-append (reverse xs) (x ∷ []), length-reverse xs))

  pub take-append_exact : (xs ys : List A) (n : ℕ) → length xs ≡ n → take n (xs ++ ys) ≡ xs
  take-append_exact [] ys zero h = refl
  take-append_exact [] ys (suc n) h = absurd (omega arith)
  take-append_exact (x ∷ xs) ys zero h = absurd (omega arith)
  take-append_exact (x ∷ xs) ys (suc n) h = ap (◌∷◌ x) (take-append_exact xs ys n (omega arith))

  pub drop-append_exact : (xs ys : List A) (n : ℕ) → length xs ≡ n → drop n (xs ++ ys) ≡ ys
  drop-append_exact [] ys zero h = refl
  drop-append_exact [] ys (suc n) h = absurd (omega arith)
  drop-append_exact (x ∷ xs) ys zero h = absurd (omega arith)
  drop-append_exact (x ∷ xs) ys (suc n) h = drop-append_exact xs ys n (omega arith)

  pub length-map {κ} : {B : Type κ} (f : A → B) (xs : List A) → length (map f xs) ≡ length xs
  length-map f [] = refl
  length-map f (x ∷ xs) = ap suc (length-map f xs)

  pub length-take_exact : (n k : ℕ) (xs : List A) → length xs ≡ n + k → length (take n xs) ≡ n
  length-take_exact zero k xs h = refl
  length-take_exact (suc n) k [] h = absurd (omega arith)
  length-take_exact (suc n) k (x ∷ xs) h = ap suc (length-take_exact n k xs (omega arith))

  -- A stable sort by insertion, for `ORDER BY`.
  abbrev pub insert_by : (A → A → Bool) → A → List A → List A
  insert_by before x [] = x ∷ []
  insert_by before x (y ∷ ys) =
      let rest = insert_by before x ys in if before x y then x ∷ y ∷ ys else y ∷ rest

  abbrev pub sort_by : (A → A → Bool) → List A → List A
  sort_by before [] = []
  sort_by before (x ∷ xs) = insert_by before x (sort_by before xs)

  pub all-of_All : (p : A → Bool) (xs : List A) → All (λ x. p x ≡ true) xs → all p xs ≡ true
  all-of_All p [] h = refl
  all-of_All p (x ∷ xs) h = rw (h.0) (all-of_All p xs h.1)

  pub count_if-append :
      (p : A → Bool) (xs ys : List A) → count_if p (xs ++ ys) ≡ count_if p xs + count_if p ys
  count_if-append p [] ys = omega arith
  count_if-append p (x ∷ xs) ys = elim (Bool-cases (p x)) [
    | inl e ↦ rw e (omega (arith, count_if-append p xs ys))
    | inr e ↦ rw e (count_if-append p xs ys)
  ]
