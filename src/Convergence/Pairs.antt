-- ===== src/Convergence/Pairs.antt =====
-- convergence.py: how many findings of one identity are paired, and how many are new.
use doug.Prelude.{
  ℕ, suc, ◌+◌, min, ◌≡◌, refl, Bool, false, ◌&&◌, ◌||◌, Option, none, some, List, [], ◌∷◌, arith,
  if◌then◌else◌, count_if, count_if-append, ltb, Bool-cases, inl, inr,
}
use doug.Convergence.Rows.{Finding, Read, prior, later, Reason}
use doug.Convergence.Patterns.{Unicode}
use doug.Convergence.Cases.{rule5-cases}
use doug.Convergence.{
  Identity, Counter, has_identity, identity, absent, identity_counts, prior_step, prior_rows,
  later_step, later_rows, classify,
}
use doug.Convergence.Budget.{
  rereported, matched_at, new_at, unmatchable-unmarked, later_step-Steps, later_step-matched_or_new,
  step_sum, prior_rows-count,
}

module _ (u : Unicode) (reasons : List Finding) (later_read prior_read : Option Read)
    (k : Identity) where
  matched_rows-count :
      (rows : List Finding) (budget : Counter)
      → count_if (matched_at u k) (later_rows u reasons later_read prior_read budget rows)
        ≡ min (budget k) (count_if (has_identity u k) rows)
  unfolding later_rows
  matched_rows-count [] budget = ground arith
  matched_rows-count (row ∷ rows) budget =
      let (marked, left) =
        later_step-Steps u reasons later_read prior_read k row budget (identity u row) refl in
      step_sum u reasons later_read prior_read _ _ _ _ _ _ _ marked refl left
        (matched_rows-count rows _)

  new_sum :
      (has matched new : Bool) (c m n : ℕ)
      → (has ≡ (matched || new)) × ((matched && new) ≡ false)
      → n + m ≡ c
      → (if new then suc n else n) + (if matched then suc m else m) ≡ (if has then suc c else c)
  new_sum has matched new c m n e f = ground arith

  new_rows-count :
      (rows : List Finding) (budget : Counter)
      → let entries = later_rows u reasons later_read prior_read budget rows in
        count_if (new_at u k) entries + count_if (matched_at u k) entries
        ≡ count_if (has_identity u k) rows
  unfolding later_rows
  new_rows-count [] budget = refl
  new_rows-count (row ∷ rows) budget =
      new_sum _ _ _ _ _ _
        (later_step-matched_or_new u reasons later_read prior_read k row budget (identity u row)
          refl)
        (new_rows-count rows _)

  -- The marks of one side stand on no entry of the other.
  absent-later_unmarked :
      (row : Finding) (i : Identity) (r : Option Reason)
      → let e = absent u reasons later_read prior_read row i r in
        (matched_at u k e ≡ false) × (new_at u k e ≡ false)
  unfolding absent
  absent-later_unmarked row i (some r) = (refl, refl)
  absent-later_unmarked row i none =
      rule5-cases (λ e. (matched_at u k e ≡ false) × (new_at u k e ≡ false)) row (λ r. (refl, refl))
        (refl, refl) (λ d. (refl, refl)) i.1 prior_read later_read

  prior_step-unmarked :
      (row : Finding) (budget : Counter) (i : Option Identity)
      → let e = (prior_step u reasons later_read prior_read row budget i).0 in
        (matched_at u k e ≡ false) × (new_at u k e ≡ false)
  unfolding prior_step
  prior_step-unmarked row budget none = let (a, b, c) = unmatchable-unmarked u prior row k in (b, c)
  prior_step-unmarked row budget (some i) = elim (Bool-cases (ltb 0 (budget i))) [
    | inl e ↦ rw e (refl, refl)
    | inr e ↦ rw e (absent-later_unmarked row i _)
  ]

  later_step-unmarked :
      (row : Finding) (budget : Counter) (i : Option Identity)
      → rereported u k (later_step u reasons later_read prior_read row budget i).0 ≡ false
  unfolding later_step
  later_step-unmarked row budget none = (unmatchable-unmarked u later row k).0
  later_step-unmarked row budget (some i) = elim (Bool-cases (ltb 0 (budget i))) [
    | inl e ↦ rw e refl
    | inr e ↦ rw e refl
  ]

  prior_rows-unmarked :
      (rows : List Finding) (budget : Counter)
      → let entries = prior_rows u reasons later_read prior_read budget rows in
        (count_if (matched_at u k) entries ≡ 0) × (count_if (new_at u k) entries ≡ 0)
  unfolding prior_rows
  prior_rows-unmarked [] budget = (refl, refl)
  prior_rows-unmarked (row ∷ rows) budget =
      let (a, b) = prior_step-unmarked row budget (identity u row) in
      let (c, d) = prior_rows-unmarked rows _ in (rw a c, rw b d)

  later_rows-unmarked :
      (rows : List Finding) (budget : Counter)
      → count_if (rereported u k) (later_rows u reasons later_read prior_read budget rows) ≡ 0
  unfolding later_rows
  later_rows-unmarked [] budget = refl
  later_rows-unmarked (row ∷ rows) budget =
      rw (later_step-unmarked row budget (identity u row)) (later_rows-unmarked rows _)

-- Of one identity that `p` prior and `l` later findings have, `classify` persists the smaller of the
-- two numbers by rule 1, matches as many later findings to them, and calls the rest of the later
-- ones new: whatever the notices, the coverage and the stored hunks say.
pub classify-pairs :
    (u : Unicode) (prior_findings later_findings reasons : List Finding)
    (later_read prior_read : Option Read) (k : Identity)
    → let entries = classify u prior_findings later_findings reasons later_read prior_read in
      let p = count_if (has_identity u k) prior_findings in
      let l = count_if (has_identity u k) later_findings in
      (count_if (rereported u k) entries ≡ min p l)
      × (count_if (matched_at u k) entries ≡ min p l)
      × (count_if (new_at u k) entries + min p l ≡ l)
unfolding classify identity_counts
classify-pairs u prior_findings later_findings reasons later_read prior_read k =
    let common : Counter =
      λ i. min (identity_counts u prior_findings i) (identity_counts u later_findings i) in
    let ps = prior_rows u reasons later_read prior_read common prior_findings in
    let ls = later_rows u reasons later_read prior_read common later_findings in
    let again = prior_rows-count u reasons later_read prior_read k prior_findings common in
    let met = matched_rows-count u reasons later_read prior_read k later_findings common in
    let fresh = new_rows-count u reasons later_read prior_read k later_findings common in
    let (no_match, no_new) =
      prior_rows-unmarked u reasons later_read prior_read k prior_findings common in
    let no_again = later_rows-unmarked u reasons later_read prior_read k later_findings common in
    let a = count_if-append (rereported u k) ps ls in
    let m = count_if-append (matched_at u k) ps ls in
    let n = count_if-append (new_at u k) ps ls in
    (
      omega (arith, a, again, no_again),
      omega (arith, m, met, no_match),
      omega (arith, n, met, fresh, no_new),
    )
