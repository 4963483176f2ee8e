-- ===== src/Outcomes/Queue/Dict.antt =====
-- outcome_queue.py: the dictionaries from identities that a settlement builds.
use doug.Prelude.{
  ◌≡◌, refl, true, ◌||◌, List, [], ◌∷◌, nat_eq, string_eq, arith, All, In, here, there, Bool-cases,
  inl, inr,
}
use mathlib.Core.Path.{subst}
use doug.Outcomes.Queue.Dictionaries.{Identity, same_identity, put, dict_from, has_key}

pub same_identity-same : (p q : Identity) → same_identity p q ≡ true → p ≡ q
same_identity-same (p, s, w) (q, t, v) h =
    let e : p ≡ q = ground arith in
    let f : s ≡ t = (string_eq.same_iff s t).0 (ground arith) in let g : w ≡ v = ground arith in cc

pub same_identity_refl : (p : Identity) → same_identity p p ≡ true
same_identity_refl (p, s, w) = let e = (string_eq.same_iff s s).1 refl in ground arith

module _ {ℓ} {V : Type ℓ} where
  -- Each key that `put` leaves is the one that it writes, or was there.
  put-keys {κ} :
      (Q : Identity → Type κ) (k : Identity) (v : V) (d : List (Identity × V))
      → Q k
      → All (λ e. Q e.0) d
      → All (λ e. Q e.0) (put k v d)
  unfolding put
  put-keys Q k v [] q h = (q, tt)
  put-keys Q k v ((j, w) ∷ rest) q h = elim (Bool-cases (same_identity j k)) [
    | inl e ↦ rw e (q, h.1)
    | inr e ↦ rw e (h.0, put-keys Q k v rest q h.1)
  ]

  has_key-put_own : (k : Identity) (v : V) (d : List (Identity × V)) → has_key (put k v d) k ≡ true
  unfolding put
  has_key-put_own k v [] = rw (same_identity_refl k) refl
  has_key-put_own k v ((j, w) ∷ rest) = elim (Bool-cases (same_identity j k)) [
    | inl e ↦ rw e (rw (same_identity_refl k) refl)
    | inr e ↦ rw (e, e) (has_key-put_own k v rest)
  ]

  has_key-put :
      (i k : Identity) (v : V) (d : List (Identity × V))
      → has_key d i ≡ true
      → has_key (put k v d) i ≡ true
  unfolding put
  has_key-put i k v [] h = ground arith
  has_key-put i k v ((j, w) ∷ rest) h = elim (Bool-cases (same_identity j k)) [
    | inl e ↦
        rw e
          (subst (λ x. (same_identity x i || has_key rest i) ≡ true) (same_identity-same j k e) h)
    | inr e ↦ elim (Bool-cases (same_identity j i)) [
      | inl f ↦ rw (e, f) refl
      | inr f ↦ rw (e, f) (has_key-put i k v rest (rw f at h))
    ]
  ]

  module _ {A : Type ℓ} (key : A → Identity) (value : A → V) where
    pub dict_from-keys {μ} :
        (Q : Identity → Type μ) (xs : List A) (d : List (Identity × V))
        → All (λ x. Q (key x)) xs
        → All (λ e. Q e.0) d
        → All (λ e. Q e.0) (dict_from key value d xs)
    unfolding dict_from
    dict_from-keys Q [] d q h = h
    dict_from-keys Q (x ∷ xs) d q h =
        dict_from-keys Q xs (put (key x) (value x) d) q.1 (put-keys Q (key x) (value x) d q.0 h)

    has_key-dict_from_old :
        (i : Identity) (xs : List A) (d : List (Identity × V))
        → has_key d i ≡ true
        → has_key (dict_from key value d xs) i ≡ true
    unfolding dict_from
    has_key-dict_from_old i [] d h = h
    has_key-dict_from_old i (x ∷ xs) d h =
        has_key-dict_from_old i xs _ (has_key-put i (key x) (value x) d h)

    -- The dictionary has the key of each element that it was built from.
    pub has_key-dict_from :
        {x : A} {xs : List A} (d : List (Identity × V))
        → In x xs
        → has_key (dict_from key value d xs) (key x) ≡ true
    unfolding dict_from
    has_key-dict_from {x} {xs = y ∷ ys} d here =
        has_key-dict_from_old (key x) ys _ (has_key-put_own (key x) (value x) d)
    has_key-dict_from {xs = []} d m = elim m [ ]
    has_key-dict_from {xs = y ∷ ys} d (there m) = has_key-dict_from (put (key y) (value y) d) m
