-- ===== src/Convergence/Counts.antt =====
-- convergence.py: what the tests on counters of hashes say of each hash.
use doug.Prelude.{
  ℕ, zero, suc, ◌≤◌, ◌≡◌, ◌≢◌, ◌⊎◌, refl, ◌∙◌, sym, Bool, true, List, [], ◌∷◌, ◌++◌, arith, Text,
  leb, ◌==◌, nat_eq, list_eq, list_beq_iff, all, In, here, there, Bool-cases, inl, inr,
}
use doug.Convergence.Rule5.{count, same_counts, within}

all-at : (p : Text → Bool) (xs : List Text) → all p xs ≡ true → {x : Text} → In x xs → p x ≡ true
all-at p [] h m = elim m [ ]
all-at p (y ∷ ys) h here = ground arith
all-at p (y ∷ ys) h (there m) = all-at p ys (ground arith) m

-- A text that a list counts is in it.
count-In : (x : Text) (xs : List Text) → count x xs ≢ 0 → In x xs
count-In x [] h = absurd (h refl)
count-In x (y ∷ ys) h = elim (Bool-cases (y == x)) [
  | inl e ↦ let same : y ≡ x = (list_beq_iff y x).0 e in rw (← same) here
  | inr e ↦ there (count-In x ys (rw e at h))
]

In-append_left : {x : Text} {xs : List Text} (ys : List Text) → In x xs → In x (xs ++ ys)
In-append_left ys here = here
In-append_left ys (there m) = there (In-append_left ys m)

In-append_right : {x : Text} (xs : List Text) {ys : List Text} → In x ys → In x (xs ++ ys)
In-append_right [] m = m
In-append_right (y ∷ xs) m = there (In-append_right xs m)

zero_or_not : (n : ℕ) → (n ≡ 0) ⊎ (n ≢ 0)
zero_or_not zero = inl refl
zero_or_not (suc n) = inr (λ h. ground arith)

pub same_counts-count :
    (xs ys : List Text) → same_counts xs ys ≡ true → (x : Text) → count x xs ≡ count x ys
unfolding same_counts
same_counts-count xs ys h x =
    let same = λ (m : In x (xs ++ ys)). all-at (λ t. count t xs == count t ys) (xs ++ ys) h m in
    elim (zero_or_not (count x xs)) [
      | inr p ↦ let e = same (In-append_left ys (count-In x xs p)) in ground arith
      | inl p ↦ elim (zero_or_not (count x ys)) [
        | inl q ↦ p ∙ sym q
        | inr q ↦ let e = same (In-append_right xs (count-In x ys q)) in ground arith
      ]
    ]

pub within-count : (xs ys : List Text) → within xs ys ≡ true → (x : Text) → count x xs ≤ count x ys
unfolding within
within-count xs ys h x = elim (zero_or_not (count x xs)) [
  | inl p ↦ rw p (omega arith)
  | inr p ↦
      let e = all-at (λ t. leb (count t xs) (count t ys)) xs h (count-In x xs p) in ground arith
]
