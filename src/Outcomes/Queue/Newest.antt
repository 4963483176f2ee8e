-- ===== src/Outcomes/Queue/Newest.antt =====
-- outcome_queue.py: the order by which `_live_registration` picks one row.
use doug.Prelude.{
  ◌≡◌, ◌≢◌, Bool, true, false, none, some, List, [], ◌∷◌, nat_eq, string_eq, arith, All, All-at, In,
  here, there, Bool-cases, Option-cases, inl, inr, if◌then◌else◌,
}
use mathlib.Core.Path.{subst}
use doug.Outcomes.Queue.{InstallationRepo, newer, newest_of, newest}

pub true-not_false : {b : Bool} → b ≡ true → b ≢ false
true-not_false t f = ground arith

pub newest-none :
    (test : InstallationRepo → Bool) (rs : List InstallationRepo)
    → newest test rs ≡ none
    → All (λ r. test r ≡ false) rs
unfolding newest
newest-none test [] h = tt
newest-none test (r ∷ rs) h = elim (Bool-cases (test r)) [
  | inl e ↦ let lost : some (newest_of r (newest test rs)) ≡ none = rw e at h in ground arith
  | inr e ↦ (e, newest-none test rs (rw e at h))
]

newer_trans : (a b c : InstallationRepo) → newer a b ≡ true → newer b c ≡ true → newer a c ≡ true
newer_trans a b c h k = ground arith

newer_total : (a b : InstallationRepo) → newer a b ≡ false → newer b a ≡ true
newer_total a b h = ground arith

newer_refl : (a : InstallationRepo) → newer a a ≡ true
newer_refl a = ground arith

-- A row that passes the test, and is at least as new as each row that does.
abbrev pub IsNewest : (InstallationRepo → Bool) → List InstallationRepo → InstallationRepo → Type 0
IsNewest test rs s =
    In s rs
    × (test s ≡ true)
    × ((r : InstallationRepo) → In r rs → test r ≡ true → newer s r ≡ true)

module _ (test : InstallationRepo → Bool) where
  IsNewest-alone :
      (r : InstallationRepo) (rs : List InstallationRepo)
      → test r ≡ true
      → All (λ x. test x ≡ false) rs
      → IsNewest test (r ∷ rs) r
  IsNewest-alone r rs e none_pass = (here, e, λ x m t. as_new x m t)
    where
      as_new : (x : InstallationRepo) → In x (r ∷ rs) → test x ≡ true → newer r x ≡ true
      as_new x here t = newer_refl r
      as_new x (there m) t = absurd (true-not_false t (All-at (λ y. test y ≡ false) none_pass m))

  skip-IsNewest :
      (r s : InstallationRepo) (rs : List InstallationRepo)
      → (test r ≡ true → newer s r ≡ true)
      → IsNewest test rs s
      → IsNewest test (r ∷ rs) s
  skip-IsNewest r s rs older (m, t, top) = (there m, t, as_new)
    where
      as_new : (x : InstallationRepo) → In x (r ∷ rs) → test x ≡ true → newer s x ≡ true
      as_new x here u = older u
      as_new x (there n) u = top x n u

  over-IsNewest :
      (r s : InstallationRepo) (rs : List InstallationRepo)
      → test r ≡ true
      → newer r s ≡ true
      → IsNewest test rs s
      → IsNewest test (r ∷ rs) r
  over-IsNewest r s rs e newer_one (m, t, top) = (here, e, as_new)
    where
      as_new : (x : InstallationRepo) → In x (r ∷ rs) → test x ≡ true → newer r x ≡ true
      as_new x here u = newer_refl r
      as_new x (there n) u = newer_trans r s x newer_one (top x n u)

  pub newest-IsNewest :
      (rs : List InstallationRepo) (s : InstallationRepo)
      → newest test rs ≡ some s
      → IsNewest test rs s
  unfolding newest
  newest-IsNewest [] s h = ground arith
  newest-IsNewest (r ∷ rs) s h = elim (Bool-cases (test r)) [
    | inr e ↦
        skip-IsNewest r s rs (λ t. absurd (true-not_false t e)) (newest-IsNewest rs s (rw e at h))
    | inl e ↦ elim (Option-cases (newest test rs)) [
      | inl f ↦
          let it : some r ≡ some s = rw (e, f) at h in
          let same : r ≡ s = cc in
          subst (IsNewest test (r ∷ rs)) same (IsNewest-alone r rs e (newest-none test rs f))
      | inr (o, f) ↦
          let top = newest-IsNewest rs o f in
          let it : some (if newer r o then r else o) ≡ some s = rw (e, f) at h in
          elim (Bool-cases (newer r o)) [
            | inl n ↦
                let kept : some r ≡ some s = rw n at it in
                let same : r ≡ s = cc in
                subst (IsNewest test (r ∷ rs)) same (over-IsNewest r o rs e n top)
            | inr n ↦
                let kept : some o ≡ some s = rw n at it in
                let same : o ≡ s = cc in
                subst (IsNewest test (r ∷ rs)) same
                  (skip-IsNewest r o rs (λ t. newer_total r o n) top)
          ]
    ]
  ]
