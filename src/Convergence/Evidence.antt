-- ===== src/Convergence/Evidence.antt =====
-- convergence.py: what stands behind a finding that is carried forward without being re-reported.
use doug.Prelude.{
  ◌≤◌, ◌≡◌, ◌≢◌, ◌⊎◌, refl, ap, ◌∙◌, sym, false, Option, none, some, List, [], ◌∷◌, arith, Text,
  ltb, ◌==◌, nat_eq, list_eq, All, All-append, Bool-cases, Option-cases, inl, inr,
}
use doug.Convergence.Rows.{
  Finding, HunkIndex, Read, Side, prior, later, Reason, Basis, by_construction,
  attributed_surviving, Classification,
}
use doug.Convergence.Patterns.{Unicode, from_rule}
use doug.Convergence.Rule5.{
  count, same_counts, within, shared, has_hashes, or_empty, hashes_at, index_of, by_attribution,
  by_hunks, in_prior, with_indexes, rule5, uncovered,
}
use doug.Convergence.{
  Identity, Counter, identity, unmatchable, absent, abstention, is_settled, prior_step, prior_rows,
  later_step, later_rows, classify,
}
use mathlib.Core.Path.{subst}
use doug.Convergence.Cases.{rule5-cases}
use doug.Convergence.Counts.{same_counts-count, within-count}

module _ (row : Finding) (file : Text) (prior_read later_read : Option Read) where
  -- The hashes that the two reads stored for the file, the first of them there.
  abbrev pub Stored : HunkIndex → HunkIndex → List Text → Type 0
  Stored p l hashes =
      (index_of prior_read ≡ some p)
      × (index_of later_read ≡ some l)
      × (hashes_at file p ≡ some hashes)

  -- Both reads stored the same hashes for the file, each as often.
  abbrev pub SameHunks : Type 0
  SameHunks =
      (p : HunkIndex) × (l : HunkIndex) × (hashes : List Text) × Stored p l hashes
      × ((x : Text) → count x hashes ≡ count x (or_empty (hashes_at file l)))

  -- The finding is attributed to hunks, all of which both reads stored, each as often.
  abbrev pub HunksSurvive : Type 0
  HunksSurvive =
      (p : HunkIndex) × (l : HunkIndex) × (hashes : List Text) × (att : List Text) × Stored p l
        hashes
      × (or_empty row.hunks ≡ att)
      × (att ≢ [])
      × ((x : Text) → count x att ≤ count x hashes)
      × ((x : Text) → count x att ≤ count x (or_empty (hashes_at file l)))

  abbrev pub Backs : Option Basis → Type 0
  Backs none = Unit
  Backs (some by_construction) = SameHunks
  Backs (some attributed_surviving) = HunksSurvive

  module _ (p l : HunkIndex) (hashes : List Text) (stored : Stored p l hashes) where
    by_attribution-Backs :
        (att : List Text)
        → or_empty row.hunks ≡ att
        → Backs (by_attribution row att hashes (or_empty (hashes_at file l))).basis
    unfolding by_attribution
    by_attribution-Backs [] a = tt
    by_attribution-Backs (h ∷ hs) a =
        let later_hashes = or_empty (hashes_at file l) in
        elim (Bool-cases (within (h ∷ hs) hashes)) [
          | inr e ↦ rw e tt
          | inl e ↦ elim (Bool-cases (within (h ∷ hs) later_hashes)) [
            | inl f ↦
                rw (e, f)
                  (
                    p,
                    l,
                    hashes,
                    h ∷ hs,
                    stored,
                    a,
                    (λ g. ground arith),
                    within-count (h ∷ hs) hashes e,
                    within-count (h ∷ hs) later_hashes f,
                  )
            | inr f ↦ elim (Bool-cases (shared (h ∷ hs) later_hashes == 0)) [
              | inl g ↦ rw (e, f, g) tt
              | inr g ↦ rw (e, f, g) tt
            ]
          ]
        ]

    by_hunks-Backs : Backs (by_hunks row hashes p l file).basis
    unfolding by_hunks
    by_hunks-Backs =
        let later_hashes = or_empty (hashes_at file l) in
        elim (Bool-cases (same_counts hashes later_hashes)) [
          | inl e ↦ rw e (p, l, hashes, stored, same_counts-count hashes later_hashes e)
          | inr e ↦ elim (Bool-cases (shared hashes later_hashes == 0)) [
            | inl f ↦ elim (Bool-cases (has_hashes later_hashes)) [
              | inl g ↦ rw (e, f, g) tt
              | inr g ↦ rw (e, f, g) tt
            ]
            | inr f ↦ rw (e, f) (by_attribution-Backs (or_empty row.hunks) refl)
          ]
        ]

  in_prior-Backs :
      (p l : HunkIndex) (h : Option (List Text))
      → index_of prior_read ≡ some p
      → index_of later_read ≡ some l
      → hashes_at file p ≡ h
      → Backs (in_prior row file p l h).basis
  in_prior-Backs p l none a b c = tt
  in_prior-Backs p l (some hashes) a b c = by_hunks-Backs p l hashes (a, b, c)

  with_indexes-Backs :
      (p l : Option HunkIndex)
      → index_of prior_read ≡ p
      → index_of later_read ≡ l
      → Backs (with_indexes row file p l).basis
  with_indexes-Backs none l a b = tt
  with_indexes-Backs (some p) none a b = tt
  with_indexes-Backs (some p) (some l) a b = in_prior-Backs p l (hashes_at file p) a b refl

  rule5-Backs : Backs (rule5 row file prior_read later_read).basis
  unfolding rule5
  rule5-Backs = with_indexes-Backs (index_of prior_read) (index_of later_read) refl refl

module _ (u : Unicode) (reasons : List Finding) (later_read prior_read : Option Read) where
  -- An entry has no basis, or its finding was covered by the later read, was disproved by no notice,
  -- and has the evidence that its basis names.
  abbrev pub IsBacked : Classification → Type 0
  IsBacked e =
      (e.basis ≡ none)
      ⊎ ((k : Identity) × (identity u e.finding ≡ some k)
          × (uncovered k.1 later_read ≡ false)
          × (is_settled u k reasons ≡ false)
          × Backs e.finding k.1 prior_read later_read e.basis)

  abstention-none :
      (k : Identity)
      → abstention u k reasons later_read ≡ none
      → (uncovered k.1 later_read ≡ false) × (is_settled u k reasons ≡ false)
  unfolding abstention
  abstention-none k h = elim (Bool-cases (uncovered k.1 later_read)) [
    | inl e ↦ let lost : some Reason.file_uncovered ≡ none = rw e at h in ground arith
    | inr e ↦ elim (Bool-cases (is_settled u k reasons)) [
      | inl f ↦ let lost : some Reason.settled ≡ none = rw (e, f) at h in ground arith
      | inr f ↦ (e, f)
    ]
  ]

  unmatchable-IsBacked : (side : Side) (row : Finding) → IsBacked (unmatchable u side row)
  unfolding unmatchable
  unmatchable-IsBacked side row = elim (Option-cases (from_rule u row.rule)) [
    | inl e ↦ rw (e, unmatchable) (inl refl)
    | inr (p, e) ↦ rw (e, unmatchable) (inl refl)
  ]

  rule5-IsBacked :
      (row : Finding) (k : Identity)
      → identity u row ≡ some k
      → abstention u k reasons later_read ≡ none
      → IsBacked (rule5 row k.1 prior_read later_read)
  rule5-IsBacked row k e f =
      let same : (rule5 row k.1 prior_read later_read).finding ≡ row =
        rule5-cases (λ c. c.finding ≡ row) row (λ r. refl) refl (λ d. refl) k.1 prior_read
          later_read in
      let (covered, unsettled) = abstention-none k f in
      inr (
        k,
        ap (identity u) same ∙ e,
        covered,
        unsettled,
        subst (λ r. Backs r k.1 prior_read later_read (rule5 row k.1 prior_read later_read).basis)
            (sym same) (rule5-Backs row k.1 prior_read later_read),
      )

  prior_step-IsBacked :
      (row : Finding) (budget : Counter) (i : Option Identity)
      → identity u row ≡ i
      → IsBacked (prior_step u reasons later_read prior_read row budget i).0
  unfolding prior_step absent
  prior_step-IsBacked row budget none e = unmatchable-IsBacked prior row
  prior_step-IsBacked row budget (some k) e = elim (Bool-cases (ltb 0 (budget k))) [
    | inl h ↦ rw h (inl refl)
    | inr h ↦ elim (Option-cases (abstention u k reasons later_read)) [
      | inl f ↦ rw (h, f) (rule5-IsBacked row k e f)
      | inr (r, f) ↦ rw (h, f) (inl refl)
    ]
  ]

  later_step-IsBacked :
      (row : Finding) (budget : Counter) (i : Option Identity)
      → IsBacked (later_step u reasons later_read prior_read row budget i).0
  unfolding later_step
  later_step-IsBacked row budget none = unmatchable-IsBacked later row
  later_step-IsBacked row budget (some k) = elim (Bool-cases (ltb 0 (budget k))) [
    | inl h ↦ rw h (inl refl)
    | inr h ↦ rw h (inl refl)
  ]

  prior_rows-IsBacked :
      (rows : List Finding) (budget : Counter)
      → All IsBacked (prior_rows u reasons later_read prior_read budget rows)
  unfolding prior_rows
  prior_rows-IsBacked [] budget = tt
  prior_rows-IsBacked (row ∷ rows) budget =
      (prior_step-IsBacked row budget (identity u row) refl, prior_rows-IsBacked rows _)

  later_rows-IsBacked :
      (rows : List Finding) (budget : Counter)
      → All IsBacked (later_rows u reasons later_read prior_read budget rows)
  unfolding later_rows
  later_rows-IsBacked [] budget = tt
  later_rows-IsBacked (row ∷ rows) budget =
      (later_step-IsBacked row budget (identity u row), later_rows-IsBacked rows _)

-- Every entry of `classify` either names no basis, or is of a finding that has an identity, that the
-- later read covered and no settlement notice disproved; and then a by-construction persist has both
-- reads store the same hashes of the file, each as often, and an attributed one has its attribution,
-- which is not empty, within the hashes of both reads.
pub classify-IsBacked :
    (u : Unicode) (prior_findings later_findings reasons : List Finding)
    (later_read prior_read : Option Read)
    → All
        (IsBacked u reasons later_read prior_read)
        (classify u prior_findings later_findings reasons later_read prior_read)
unfolding classify
classify-IsBacked u prior_findings later_findings reasons later_read prior_read =
    All-append (IsBacked u reasons later_read prior_read) _ _
      (prior_rows-IsBacked u reasons later_read prior_read prior_findings _)
      (later_rows-IsBacked u reasons later_read prior_read later_findings _)
