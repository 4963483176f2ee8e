-- ===== src/Prelude/Members.antt =====
-- Membership in what a query keeps, sorts, joins and updates.
use mathlib.Core.Path.{◌≡◌, refl}
use mathlib.Core.Logic.{inl, inr, ◌⊎◌}
use mathlib.Core.Bool.{Bool, true}
use mathlib.Core.List.{List, [], ◌∷◌}
use doug.Prelude.Tests.{Bool-cases, if◌then◌else◌}
use doug.Prelude.Lists.{keep, In, here, there, update_where}
use doug.Prelude.Sequences.{insert_by, sort_by}

module _ {ℓ} {A : Type ℓ} where
  In-swapped : {o x y : A} {ys : List A} → In o (x ∷ ys) → In o (x ∷ y ∷ ys)
  In-swapped here = here
  In-swapped (there m) = there (there m)

  In-under :
      {o x y : A} {ys zs : List A} → (In o zs → In o (x ∷ ys)) → In o (y ∷ zs) → In o (x ∷ y ∷ ys)
  In-under f here = there here
  In-under f (there n) = In-swapped (f n)

  In-insert_by :
      (before : A → A → Bool) {o x : A} (ys : List A) → In o (insert_by before x ys) → In o (x ∷ ys)
  In-insert_by before [] m = m
  In-insert_by before {o} {x} (y ∷ ys) m = elim (Bool-cases (before x y)) [
    | inl e ↦ rw e at m
    | inr e ↦ In-under (In-insert_by before ys) (rw e at m)
  ]

  In-later : {o x : A} {ys zs : List A} → (In o ys → In o zs) → In o (x ∷ ys) → In o (x ∷ zs)
  In-later f here = here
  In-later f (there m) = there (f m)

  pub In-sort_by :
      (before : A → A → Bool) {o : A} (xs : List A) → In o (sort_by before xs) → In o xs
  In-sort_by before [] m = m
  In-sort_by before (x ∷ xs) m =
      In-later (In-sort_by before xs) (In-insert_by before (sort_by before xs) m)

  insert_by-own : (before : A → A → Bool) (x : A) (ys : List A) → In x (insert_by before x ys)
  insert_by-own before x [] = here
  insert_by-own before x (y ∷ ys) = elim (Bool-cases (before x y)) [
    | inl e ↦ rw e here
    | inr e ↦ rw e (there (insert_by-own before x ys))
  ]

  insert_by-In :
      (before : A → A → Bool) (x : A) {o : A} {ys : List A} → In o ys → In o (insert_by before x ys)
  insert_by-In before x {ys = []} m = elim m [ ]
  insert_by-In before x {ys = y ∷ ys} here = elim (Bool-cases (before x y)) [
    | inl e ↦ rw e (there here)
    | inr e ↦ rw e here
  ]
  insert_by-In before x {ys = y ∷ ys} (there m) = elim (Bool-cases (before x y)) [
    | inl e ↦ rw e (there (there m))
    | inr e ↦ rw e (there (insert_by-In before x m))
  ]

  pub sort_by-In :
      (before : A → A → Bool) {o : A} {xs : List A} → In o xs → In o (sort_by before xs)
  sort_by-In before {xs = []} m = elim m [ ]
  sort_by-In before {xs = x ∷ xs} here = insert_by-own before x (sort_by before xs)
  sort_by-In before {xs = x ∷ xs} (there m) = insert_by-In before x (sort_by-In before m)

  pub In-cases : {x y : A} {ys : List A} → In x (y ∷ ys) → (x ≡ y) ⊎ In x ys
  In-cases here = inl refl
  In-cases (there m) = inr m

  pub In-keep : (p : A → Bool) {x : A} (xs : List A) → In x (keep p xs) → In x xs × (p x ≡ true)
  In-keep p [] m = elim m [ ]
  In-keep p {x} (y ∷ ys) m = elim (Bool-cases (p y)) [
    | inl e ↦ elim (In-cases (rw e at m)) [
      | inl same ↦ (rw same here, rw same e)
      | inr n ↦ let (k, t) = In-keep p ys n in (there k, t)
    ]
    | inr e ↦ let (n, t) = In-keep p ys (rw e at m) in (there n, t)
  ]

  pub keep-In : (p : A → Bool) {x : A} {xs : List A} → In x xs → p x ≡ true → In x (keep p xs)
  keep-In p here e = rw e here
  keep-In p {xs = y ∷ ys} (there m) e = elim (Bool-cases (p y)) [
    | inl f ↦ rw f (there (keep-In p m e))
    | inr f ↦ rw f (keep-In p m e)
  ]

  pub In-update_where :
      (p : A → Bool) (f : A → A) {x : A} {xs : List A}
      → In x xs
      → In (if p x then f x else x) (update_where p f xs)
  In-update_where p f here = here
  In-update_where p f (there m) = there (In-update_where p f m)
