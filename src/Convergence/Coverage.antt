-- ===== src/Convergence/Coverage.antt =====
-- convergence.py: one entry for each row that is compared, and no finding ever called resolved.
use doug.Prelude.{
  ◌≡◌, refl, false, Option, none, some, List, [], ◌∷◌, ◌++◌, nat_eq, Text, ltb, Bool-cases,
  Option-cases, inl, inr,
}
use doug.Convergence.Rows.{Finding, Read, Side, prior, later, resolved, Classification}
use doug.Convergence.Patterns.{Unicode, from_rule}
use doug.Convergence.Rule5.{rule5}
use doug.Convergence.Cases.{rule5-cases}
use doug.Convergence.{
  Identity, Counter, identity, unmatchable, absent, abstention, prior_step, prior_rows, later_step,
  later_rows, classify, is_state,
}

-- An entry for the row, on its side, that does not call it resolved.
abbrev pub IsEntry : Side → Finding → Classification → Type 0
IsEntry side row e = (e.side ≡ side) × (e.finding ≡ row) × (is_state resolved e.state ≡ false)

abbrev pub EntriesFor : Side → List Finding → List Classification → Type 0
EntriesFor side [] [] = Unit
EntriesFor side (row ∷ rows) (e ∷ es) = IsEntry side row e × EntriesFor side rows es
EntriesFor side _ _ = ⊥

rule5-IsEntry :
    (row : Finding) (file : Text) (p l : Option Read) → IsEntry prior row (rule5 row file p l)
rule5-IsEntry row =
    rule5-cases (IsEntry prior row) row (λ r. (refl, refl, refl)) (refl, refl, refl)
      (λ d. (refl, refl, refl))

module _ (u : Unicode) where
  unmatchable-IsEntry : (side : Side) (row : Finding) → IsEntry side row (unmatchable u side row)
  unfolding unmatchable
  unmatchable-IsEntry side row = elim (Option-cases (from_rule u row.rule)) [
    | inl e ↦ rw (e, unmatchable) (refl, refl, refl)
    | inr (p, e) ↦ rw (e, unmatchable) (refl, refl, refl)
  ]

  module _ (reasons : List Finding) (later_read prior_read : Option Read) where
    prior_step-IsEntry :
        (row : Finding) (budget : Counter) (k : Option Identity)
        → IsEntry prior row (prior_step u reasons later_read prior_read row budget k).0
    unfolding prior_step absent
    prior_step-IsEntry row budget none = unmatchable-IsEntry prior row
    prior_step-IsEntry row budget (some k) = elim (Bool-cases (ltb 0 (budget k))) [
      | inl e ↦ rw e (refl, refl, refl)
      | inr e ↦ elim (Option-cases (abstention u k reasons later_read)) [
        | inl f ↦ rw (e, f) (rule5-IsEntry row k.1 prior_read later_read)
        | inr (r, f) ↦ rw (e, f) (refl, refl, refl)
      ]
    ]

    later_step-IsEntry :
        (row : Finding) (budget : Counter) (k : Option Identity)
        → IsEntry later row (later_step u reasons later_read prior_read row budget k).0
    unfolding later_step
    later_step-IsEntry row budget none = unmatchable-IsEntry later row
    later_step-IsEntry row budget (some k) = elim (Bool-cases (ltb 0 (budget k))) [
      | inl e ↦ rw e (refl, refl, refl)
      | inr e ↦ rw e (refl, refl, refl)
    ]

    -- The entries of one side, row by row.
    prior_rows-IsEntry :
        (rows : List Finding) (budget : Counter)
        → EntriesFor prior rows (prior_rows u reasons later_read prior_read budget rows)
    unfolding prior_rows
    prior_rows-IsEntry [] budget = tt
    prior_rows-IsEntry (row ∷ rows) budget =
        (prior_step-IsEntry row budget (identity u row), prior_rows-IsEntry rows _)

    later_rows-IsEntry :
        (rows : List Finding) (budget : Counter)
        → EntriesFor later rows (later_rows u reasons later_read prior_read budget rows)
    unfolding later_rows
    later_rows-IsEntry [] budget = tt
    later_rows-IsEntry (row ∷ rows) budget =
        (later_step-IsEntry row budget (identity u row), later_rows-IsEntry rows _)

  -- `classify` gives one entry to each row that it is handed: first the prior findings in their order,
  -- then the later ones in theirs, each with its side and its row; and no entry is `resolved`.
  pub classify-EntriesFor :
      (prior_findings later_findings reasons : List Finding) (later_read prior_read : Option Read)
      → let entries = classify u prior_findings later_findings reasons later_read prior_read in
        (ps : List Classification) × (ls : List Classification) × (entries ≡ ps ++ ls)
        × EntriesFor prior prior_findings ps
        × EntriesFor later later_findings ls
  unfolding classify
  classify-EntriesFor prior_findings later_findings reasons later_read prior_read = (
    _,
    _,
    refl,
    prior_rows-IsEntry reasons later_read prior_read prior_findings _,
    later_rows-IsEntry reasons later_read prior_read later_findings _,
  )
