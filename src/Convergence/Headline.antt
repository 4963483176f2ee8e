-- ===== src/Convergence/Headline.antt =====
-- api/doug/check_run.py: the two counts of the convergence section's headline.
use doug.Prelude.{
  ℕ, ◌+◌, ◌≡◌, refl, Bool, true, false, ◌&&◌, Option, none, some, List, [], ◌∷◌, arith, count_if,
  All, All-append, ltb, Bool-cases, Option-cases, inl, inr,
}
use doug.Convergence.Rows.{
  Finding, Read, Side, prior, later, persisted, Reason, Basis, by_construction, Classification,
}
use doug.Convergence.Patterns.{Unicode, from_rule}
use doug.Convergence.Cases.{rule5-cases}
use doug.Convergence.{
  Identity, Counter, identity, unmatchable, absent, is_state, prior_step, prior_rows, later_step,
  later_rows, classify,
}

abbrev pub is_prior : Side → Bool
is_prior prior = true
is_prior later = false

abbrev pub is_persisted : Classification → Bool
is_persisted e = is_prior e.side && is_state persisted e.state

abbrev pub is_by_construction : Option Basis → Bool
is_by_construction (some by_construction) = true
is_by_construction _ = false

abbrev pub is_unset : Option Basis → Bool
is_unset none = true
is_unset (some b) = false

abbrev pub is_false : Option Bool → Bool
is_false (some false) = true
is_false _ = false

unfoldable pub silent : List Classification → ℕ
silent rows = count_if (λ c. is_persisted c && is_by_construction c.basis) rows

abbrev pub reported_unmoved : Classification → Bool
reported_unmoved c = is_persisted c && is_unset c.basis && is_false c.code_changed

unfoldable pub denominator : List Classification → ℕ
unfolding silent
denominator rows = silent rows + count_if reported_unmoved rows

count_if-none :
    (p : Classification → Bool) (xs : List Classification)
    → All (λ x. p x ≡ false) xs
    → count_if p xs ≡ 0
count_if-none p [] h = refl
count_if-none p (x ∷ xs) h = rw (h.0) (count_if-none p xs h.1)

module _ (u : Unicode) (reasons : List Finding) (later_read prior_read : Option Read) where
  unmatchable-unreported :
      (side : Side) (row : Finding) → reported_unmoved (unmatchable u side row) ≡ false
  unfolding unmatchable
  unmatchable-unreported prior row = elim (Option-cases (from_rule u row.rule)) [
    | inl e ↦ rw (e, unmatchable) refl
    | inr (p, e) ↦ rw (e, unmatchable) refl
  ]
  unmatchable-unreported later row = elim (Option-cases (from_rule u row.rule)) [
    | inl e ↦ rw (e, unmatchable) refl
    | inr (p, e) ↦ rw (e, unmatchable) refl
  ]

  absent-unreported :
      (row : Finding) (k : Identity) (r : Option Reason)
      → reported_unmoved (absent u reasons later_read prior_read row k r) ≡ false
  unfolding absent
  absent-unreported row k (some r) = refl
  absent-unreported row k none =
      rule5-cases (λ c. reported_unmoved c ≡ false) row (λ r. refl) refl (λ d. refl) k.1 prior_read
        later_read

  prior_step-unreported :
      (row : Finding) (budget : Counter) (i : Option Identity)
      → reported_unmoved (prior_step u reasons later_read prior_read row budget i).0 ≡ false
  unfolding prior_step
  prior_step-unreported row budget none = unmatchable-unreported prior row
  prior_step-unreported row budget (some k) = elim (Bool-cases (ltb 0 (budget k))) [
    | inl e ↦ rw e refl
    | inr e ↦ rw e (absent-unreported row k _)
  ]

  later_step-unreported :
      (row : Finding) (budget : Counter) (i : Option Identity)
      → reported_unmoved (later_step u reasons later_read prior_read row budget i).0 ≡ false
  unfolding later_step
  later_step-unreported row budget none = unmatchable-unreported later row
  later_step-unreported row budget (some k) = elim (Bool-cases (ltb 0 (budget k))) [
    | inl e ↦ rw e refl
    | inr e ↦ rw e refl
  ]

  prior_rows-unreported :
      (rows : List Finding) (budget : Counter)
      → All
          (λ e. reported_unmoved e ≡ false)
          (prior_rows u reasons later_read prior_read budget rows)
  unfolding prior_rows
  prior_rows-unreported [] budget = tt
  prior_rows-unreported (row ∷ rows) budget =
      (prior_step-unreported row budget (identity u row), prior_rows-unreported rows _)

  later_rows-unreported :
      (rows : List Finding) (budget : Counter)
      → All
          (λ e. reported_unmoved e ≡ false)
          (later_rows u reasons later_read prior_read budget rows)
  unfolding later_rows
  later_rows-unreported [] budget = tt
  later_rows-unreported (row ∷ rows) budget =
      (later_step-unreported row budget (identity u row), later_rows-unreported rows _)

-- The headline's denominator is always its numerator: `classify` records on no persisted finding
-- whether its file moved, so that no re-reported finding is ever counted among the earlier findings
-- on unchanged files.
pub denominator-silent :
    (u : Unicode) (prior_findings later_findings reasons : List Finding)
    (later_read prior_read : Option Read)
    → let entries = classify u prior_findings later_findings reasons later_read prior_read in
      denominator entries ≡ silent entries
unfolding classify denominator
denominator-silent u prior_findings later_findings reasons later_read prior_read =
    let entries = classify u prior_findings later_findings reasons later_read prior_read in
    let uncounted : count_if reported_unmoved entries ≡ 0 = count_if-none reported_unmoved entries (
      All-append (λ e. reported_unmoved e ≡ false) _ _
        (prior_rows-unreported u reasons later_read prior_read prior_findings _)
        (later_rows-unreported u reasons later_read prior_read later_findings _)) in
    omega (arith, uncounted)
