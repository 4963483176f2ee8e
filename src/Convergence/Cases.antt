-- ===== src/Convergence/Cases.antt =====
-- convergence.py: the answers that `_rule5` can give.
use doug.Prelude.{Option, none, some, List, [], ◌∷◌, ◌==◌, nat_eq, Text, Bool-cases, inl, inr}
use doug.Convergence.Rows.{
  Finding, HunkIndex, Read, prior, persisted, Reason, attributed_surviving, by_construction,
  PairDelta, Classification, plain, abstained,
}
use doug.Convergence.Rule5.{
  same_counts, within, shared, has_hashes, or_empty, hashes_at, index_of, by_attribution, by_hunks,
  in_prior, with_indexes, rule5,
}

abbrev pub attributed : Finding → Classification
attributed row = record (plain prior row persisted) { basis = some attributed_surviving }

abbrev pub carried : Finding → PairDelta → Classification
carried row delta = record (plain prior row persisted) {
  basis = some by_construction;
  pair_delta = some delta;
}

module _ {ℓ} (P : Classification → Type ℓ) (row : Finding)
    (on_abstained : (r : Reason) → P (abstained prior row r)) (on_attributed : P (attributed row))
    (on_carried : (delta : PairDelta) → P (carried row delta)) where
  by_attribution-cases : (att p l : List Text) → P (by_attribution row att p l)
  unfolding by_attribution
  by_attribution-cases [] p l = on_abstained _
  by_attribution-cases (h ∷ hs) p l = elim (Bool-cases (within (h ∷ hs) p)) [
    | inr e ↦ rw e (on_abstained _)
    | inl e ↦ elim (Bool-cases (within (h ∷ hs) l)) [
      | inl f ↦ rw (e, f) on_attributed
      | inr f ↦ elim (Bool-cases (shared (h ∷ hs) l == 0)) [
        | inl g ↦ rw (e, f, g) (on_abstained _)
        | inr g ↦ rw (e, f, g) (on_abstained _)
      ]
    ]
  ]

  by_hunks-cases :
      (hashes : List Text) (p l : HunkIndex) (file : Text) → P (by_hunks row hashes p l file)
  unfolding by_hunks
  by_hunks-cases hashes p l file =
      let later_hashes = or_empty (hashes_at file l) in
      elim (Bool-cases (same_counts hashes later_hashes)) [
        | inl e ↦ rw e (on_carried _)
        | inr e ↦ elim (Bool-cases (shared hashes later_hashes == 0)) [
          | inl f ↦ elim (Bool-cases (has_hashes later_hashes)) [
            | inl g ↦ rw (e, f, g) (on_abstained _)
            | inr g ↦ rw (e, f, g) (on_abstained _)
          ]
          | inr f ↦ rw (e, f) (by_attribution-cases (or_empty row.hunks) hashes later_hashes)
        ]
      ]

  in_prior-cases :
      (file : Text) (p l : HunkIndex) (h : Option (List Text)) → P (in_prior row file p l h)
  in_prior-cases file p l none = on_abstained _
  in_prior-cases file p l (some hashes) = by_hunks-cases hashes p l file

  with_indexes-cases : (file : Text) (p l : Option HunkIndex) → P (with_indexes row file p l)
  with_indexes-cases file none l = on_abstained _
  with_indexes-cases file (some p) none = on_abstained _
  with_indexes-cases file (some p) (some l) = in_prior-cases file p l (hashes_at file p)

  -- What holds of each kind of answer holds of the answer.
  pub rule5-cases : (file : Text) (p l : Option Read) → P (rule5 row file p l)
  unfolding rule5
  rule5-cases file p l = with_indexes-cases file (index_of p) (index_of l)
