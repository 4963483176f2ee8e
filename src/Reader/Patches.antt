-- ===== src/Reader/Patches.antt =====
-- reader.py: the patches that attribution derives again, against the index of the read.
use doug.Prelude.{
  ℕ, ◌≡◌, ◌≢◌, refl, sym, ap, ◌∙◌, Bool, true, false, not, ◌||◌, Option, some, List, [], ◌∷◌, map,
  length, Text, ◌==◌, list_eq, option_eq, nat_eq, arith, Bool-cases, Option-cases, inl, inr, All,
  All-at, All-of_In, All-map, All-map_at, In, In-any, In-map, any, any_none, Distinct,
}
use doug.Reader.{
  Index, set_item, get_item, has_item, hashes_of, index_chunks, chunk_patch, patches_from, drifts,
  same_names, checked_patches, patches_under, sent_file_patches, coverage, sent_slice,
}
use mathlib.Core.Bool.{false≢true}
use mathlib.Core.Path.{subst}
use doug.Reader.Headers.{Match, file_headers}

key_same : (k : Text) → (k == k) ≡ true
key_same k = (list_eq.same_iff k k).1 refl

key_apart : (k name : Text) → (k == name) ≡ false → k ≢ name
key_apart k name e q = false≢true (sym e ∙ (list_eq.same_iff k name).1 q)

key_differs : (k name : Text) → k ≢ name → (k == name) ≡ false
key_differs k name apart = elim (Bool-cases (k == name)) [
  | inl e ↦ absurd (apart ((list_eq.same_iff k name).0 e))
  | inr e ↦ e
]

module _ {ℓ} {V : Type ℓ} where
  has_item-set_own :
      (key : Text) (value : V) (dict : List (Text × V))
      → has_item key (set_item key value dict) ≡ true
  unfolding set_item
  has_item-set_own key value [] = rw (key_same key) refl
  has_item-set_own key value ((k, v) ∷ rest) = elim (Bool-cases (k == key)) [
    | inl e ↦ rw (e, e) refl
    | inr e ↦ rw (e, e) (has_item-set_own key value rest)
  ]

  has_item-set_item :
      (name key : Text) (value : V) (dict : List (Text × V))
      → has_item name dict ≡ true
      → has_item name (set_item key value dict) ≡ true
  unfolding set_item
  has_item-set_item name key value [] h = ground arith
  has_item-set_item name key value ((k, v) ∷ rest) h = elim (Bool-cases (k == key)) [
    | inl e ↦ rw e h
    | inr e ↦ elim (Bool-cases (k == name)) [
      | inl f ↦ rw (e, f) refl
      | inr f ↦ rw (e, f) (has_item-set_item name key value rest (rw f at h))
    ]
  ]

  All-keys_set :
      (k key : Text) (value : V) (dict : List (Text × V))
      → k ≢ key
      → All (λ y. k ≢ y) (map (λ e. e.0) dict)
      → All (λ y. k ≢ y) (map (λ e. e.0) (set_item key value dict))
  unfolding set_item
  All-keys_set k key value [] apart h = (apart, tt)
  All-keys_set k key value ((j, v) ∷ rest) apart h = elim (Bool-cases (j == key)) [
    | inl e ↦ rw e h
    | inr e ↦ rw e (h.0, All-keys_set k key value rest apart h.1)
  ]

  Distinct-set_item :
      (key : Text) (value : V) (dict : List (Text × V))
      → Distinct (map (λ e. e.0) dict)
      → Distinct (map (λ e. e.0) (set_item key value dict))
  unfolding set_item
  Distinct-set_item key value [] d = (tt, tt)
  Distinct-set_item key value ((k, v) ∷ rest) d = elim (Bool-cases (k == key)) [
    | inl e ↦ rw e d
    | inr e ↦ rw e (
      All-keys_set k key value rest (key_apart k key e) d.0,
      Distinct-set_item key value rest d.1,
    )
  ]

pub patches_from-Distinct :
    (diff : Text) (n : ℕ) (index : Index) (matches : List Match) (patches : List (Text × Text))
    → Distinct (map (λ e. e.0) patches)
    → Distinct (map (λ e. e.0) (patches_from diff n index patches matches))
unfolding patches_from
patches_from-Distinct diff n index [] patches d = d
patches_from-Distinct diff n index (m ∷ later) patches d =
    elim (Bool-cases (has_item m.name index)) [
      | inr f ↦ rw f (patches_from-Distinct diff n index later patches d)
      | inl f ↦ elim (Option-cases (chunk_patch diff m later n)) [
        | inl e ↦ rw (f, e) (patches_from-Distinct diff n index later patches d)
        | inr (patch, e) ↦
            rw (f, e)
              (patches_from-Distinct diff n index later (set_item m.name patch patches)
                (Distinct-set_item m.name patch patches d))
      ]
    ]

has_item-own :
    (patches : List (Text × Text)) → All (λ e. not (has_item e.0 patches) ≡ false) patches
has_item-own patches =
    All-of_In _ patches (λ e m. ap not (In-any (λ x. x.0 == e.0) m (key_same e.0)))

module _ (sha256 : Text → Text) where
  pub hashed : List (Text × Text) → Index
  hashed patches = map (λ e. (e.0, hashes_of sha256 e.1)) patches

  hashed-set_item :
      (name patch : Text) (patches : List (Text × Text))
      → hashed (set_item name patch patches)
        ≡ set_item name (hashes_of sha256 patch) (hashed patches)
  unfolding set_item hashed
  hashed-set_item name patch [] = refl
  hashed-set_item name patch ((k, p) ∷ rest) = elim (Bool-cases (k == name)) [
    | inl e ↦ rw e (ap (λ j. (j, hashes_of sha256 patch) ∷ hashed rest) refl)
    | inr e ↦ rw e (ap (◌∷◌ (k, hashes_of sha256 p)) (hashed-set_item name patch rest))
  ]

  has_item-hashed :
      (name : Text) (patches : List (Text × Text))
      → has_item name (hashed patches) ≡ has_item name patches
  unfolding hashed
  has_item-hashed name [] = refl
  has_item-hashed name ((k, p) ∷ rest) = ap (◌||◌ (k == name)) (has_item-hashed name rest)

  get_item-hashed :
      (patches : List (Text × Text))
      → Distinct (map (λ e. e.0) patches)
      → All (λ e. get_item e.0 (hashed patches) ≡ some (hashes_of sha256 e.1)) patches
  unfolding get_item hashed
  get_item-hashed [] d = tt
  get_item-hashed ((k, p) ∷ rest) d = (
    rw (key_same k) refl,
    All-of_In _ rest (λ e m.
        rw (key_differs k e.0 (All-at (λ j. k ≢ j) d.0 (In-map (λ x. x.0) m)))
          (All-at _ (get_item-hashed rest d.1) m)),
  )

  has_item-index_chunks :
      (diff : Text) (n : ℕ) (name : Text) (matches : List Match) (index : Index)
      → has_item name index ≡ true
      → has_item name (index_chunks sha256 diff n index matches) ≡ true
  unfolding index_chunks
  has_item-index_chunks diff n name [] index h = h
  has_item-index_chunks diff n name (m ∷ later) index h =
      elim (Option-cases (chunk_patch diff m later n)) [
        | inl e ↦ rw e (has_item-index_chunks diff n name later index h)
        | inr (patch, e) ↦ rw e (
            has_item-index_chunks diff n name later _
              (has_item-set_item name m.name (hashes_of sha256 patch) index h))
      ]

  patches_from-hashed :
      (diff : Text) (n : ℕ) (index : Index) (matches : List Match) (patches : List (Text × Text))
      → index ≡ index_chunks sha256 diff n (hashed patches) matches
      → hashed (patches_from diff n index patches matches) ≡ index
  unfolding index_chunks patches_from
  patches_from-hashed diff n index [] patches q = sym q
  patches_from-hashed diff n index (m ∷ later) patches q =
      elim (Option-cases (chunk_patch diff m later n)) [
        | inl e ↦
            let onward = patches_from-hashed diff n index later patches (rw e at q) in
            rw e (elim (Bool-cases (has_item m.name index)) [
              | inl f ↦ rw f onward
              | inr f ↦ rw f onward
            ])
        | inr (patch, e) ↦
            let h = hashes_of sha256 patch in
            let grown = set_item m.name h (hashed patches) in
            let into : index ≡ index_chunks sha256 diff n grown later = rw e at q in
            let held : has_item m.name index ≡ true =
              ap (has_item m.name) into
              ∙ has_item-index_chunks diff n m.name later grown
                  (has_item-set_own m.name h (hashed patches)) in
            rw (e, held)
              (patches_from-hashed diff n index later (set_item m.name patch patches) (
                into
                ∙ ap (λ d. index_chunks sha256 diff n d later)
                    (sym (hashed-set_item m.name patch patches))))
      ]

  agrees :
      (patches : List (Text × Text)) (e : Text × Text)
      → Distinct (map (λ x. x.0) patches)
      → In e patches
      → drifts sha256 (hashed patches) e ≡ false
  unfolding drifts
  agrees patches e d m = rw (All-at _ (get_item-hashed patches d) m) (
      ap not
        ((option_eq.same_iff (some (hashes_of sha256 e.1)) (some (hashes_of sha256 e.1))).1 refl))

  names_agree : (patches : List (Text × Text)) → same_names patches (hashed patches) ≡ true
  unfolding hashed
  names_agree patches =
      let here_too : any (λ e. not (has_item e.0 (hashed patches))) patches ≡ false =
        any_none _ patches (
          All-map_at (λ e h. ap not (has_item-hashed e.0 patches) ∙ h) patches
            (has_item-own patches)) in
      let there_too : any (λ e. not (has_item e.0 patches)) (hashed patches) ≡ false =
        any_none _ (hashed patches) (
          All-map (λ e. not (has_item e.0 patches) ≡ false) (λ e. (e.0, hashes_of sha256 e.1))
            patches (has_item-own patches)) in
      rw (here_too, there_too) refl

  -- The check passes for an index of the patches' own hashes.
  pub checked_patches-hashed :
      (patches : List (Text × Text))
      → Distinct (map (λ e. e.0) patches)
      → checked_patches sha256 (hashed patches) patches ≡ some patches
  unfolding checked_patches
  checked_patches-hashed patches d =
      let quiet : any (drifts sha256 (hashed patches)) patches ≡ false =
        any_none _ patches (All-of_In _ patches (λ e m. agrees patches e d m)) in
      let same : same_names patches (hashed patches) ≡ true = names_agree patches in
      rw (quiet, same) refl

module _ (is_decimal : ℕ → Bool) (sha256 : Text → Text) (diff : Text) where
  module _ (changed_files : Option ℕ) (dropped : List Text) (budget : Option ℕ) where
    -- Deriving the patches of the files that were sent again, from the coverage of the same diff, never
    -- fails its own check, whatever the diff and the budget, also with a file name twice: it returns
    -- patches with different names, and the index of the coverage is their hashes, file by file and in
    -- the same order.
    pub sent_file_patches-agrees :
        let cov = coverage is_decimal sha256 diff changed_files dropped budget in
        (patches : List (Text × Text)) × (sent_file_patches is_decimal sha256 diff cov
          ≡ some patches)
        × (cov.hunks ≡ some (hashed sha256 patches))
        × Distinct (map (λ e. e.0) patches)
    unfolding sent_file_patches patches_under coverage hashed
    sent_file_patches-agrees =
        let n = length (sent_slice diff budget) in
        let matches = file_headers is_decimal diff in
        let index = index_chunks sha256 diff n [] matches in
        let patches = patches_from diff n index [] matches in
        let same : hashed sha256 patches ≡ index =
          patches_from-hashed sha256 diff n index matches [] refl in
        let distinct = patches_from-Distinct diff n index matches [] tt in
        (
          patches,
          subst (λ i. checked_patches sha256 i patches ≡ some patches) same
              (checked_patches-hashed sha256 patches distinct),
          ap some (sym same),
          distinct,
        )
