-- ===== src/Rulings/Bounds.antt =====
-- rulings.py: what `parse` lets through of an author's text, which may reach a model's prompt.
use doug.Prelude.{
  ℕ, zero, suc, ◌+◌, ◌≤◌, ◌≡◌, ◌≢◌, refl, false, Option, none, some, List, [], ◌∷◌, map, ltb, ◌==◌,
  nat_eq, list_eq, arith, length, All, All-map, All-map_at, Distinct, Bool-cases, inl, inr, Text,
}
use mathlib.Core.Path.{subst}
use doug.Convergence.Patterns.{Unicode, strip}
use doug.Rulings.Checks.{Checked, fine, wrong}
use doug.Rulings.Fences.{Found, scan}
use doug.Convergence.Hunks.{splitlines}
use doug.Rulings.{
  Ruling, Why, Block, Loaded, max_rows, loaded_row, add_row, skips, rows_from, unread_block,
  only_block, read_found, parse,
}
use doug.Rulings.Passes.{IsBounded, Passes, IsRow, loaded_row-Passes}

-- The rulings of lines numbered from `n`, with `room` rows left to read.
record AreRows (n room : ℕ) (b : Block) : Type 0 where
  bounded : All IsBounded b.rulings
  few : length b.rulings ≤ room
  from_here : All (λ r. n ≤ r.row) b.rulings
  apart : Distinct (map (λ r. r.row) b.rulings)

add_row-AreRows :
    (n room : ℕ) (c : Checked Ruling) (b : Block)
    → Passes (IsRow n) c
    → AreRows (suc n) room b
    → AreRows n (suc room) (add_row n c b)
add_row-AreRows n room (wrong w) b h a = record {
  bounded = a.bounded;
  few = omega (arith, a.few);
  from_here = All-map_at (λ r below. omega arith) b.rulings a.from_here;
  apart = a.apart;
}
add_row-AreRows n room (fine r) b (bounds, at) a = record {
  bounded = (bounds, a.bounded);
  few = omega (arith, a.few);
  from_here = (omega arith, All-map_at (λ x below. omega arith) b.rulings a.from_here);
  apart = (
    All-map (λ m. r.row ≢ m) (λ x. x.row) b.rulings
        (All-map_at (λ x below. omega arith) b.rulings a.from_here),
    a.apart,
  );
}

module _ (u : Unicode) (loads : Text → Loaded) where
  rows_from-AreRows :
      (n counted room : ℕ) (lines : List Text)
      → counted + room ≡ max_rows
      → AreRows n room (rows_from u loads n counted lines)
  unfolding rows_from
  rows_from-AreRows n counted room [] e = record {
    bounded = tt;
    few = omega arith;
    from_here = tt;
    apart = tt;
  }
  rows_from-AreRows n counted room (line ∷ lines) e =
      elim (Bool-cases (strip u.is_space line == [])) [
        | inl blank ↦
            let a = rows_from-AreRows (suc n) counted room lines e in
            rw (blank, rows_from)
              (record {
                bounded = a.bounded;
                few = a.few;
                from_here = All-map_at (λ r below. omega arith) _ a.from_here;
                apart = a.apart;
              })
        | inr full ↦ elim (Bool-cases (ltb max_rows (suc counted))) [
          | inl over ↦
              rw (full, over, rows_from)
                (record { bounded = tt; few = omega arith; from_here = tt; apart = tt })
          | inr under ↦
              let (left, more) = left_over counted room e under in
              rw (full, under, rows_from)
                (rw more (
                  add_row-AreRows n left (loaded_row u.is_space n (loads line))
                    (rows_from u loads (suc n) (suc counted) lines)
                    (loaded_row-Passes u.is_space n (loads line))
                    (rows_from-AreRows (suc n) (suc counted) left lines (omega arith))))
        ]
      ]
    where
      left_over :
          (counted room : ℕ)
          → counted + room ≡ max_rows
          → ltb max_rows (suc counted) ≡ false
          → (left : ℕ) × (room ≡ suc left)
      left_over counted zero e h = absurd (ground arith)
      left_over counted (suc left) e h = (left, refl)

  block-AreRows : (blocks : List (List Text)) → AreRows 1 64 (only_block u loads blocks)
  block-AreRows [] = record { bounded = tt; few = omega arith; from_here = tt; apart = tt }
  block-AreRows (lines ∷ more) = rows_from-AreRows 1 0 64 lines refl

  found-AreRows :
      (f : Found) (w : Option Why) (b : Block) → read_found u loads f w ≡ some b → AreRows 1 64 b
  found-AreRows f (some w) b h =
      let same : skips none w ≡ b = cc in
      subst (AreRows 1 64) same
        (record { bounded = tt; few = omega arith; from_here = tt; apart = tt })
  found-AreRows f none b h =
      let same : only_block u loads f.blocks ≡ b = cc in
      subst (AreRows 1 64) same (block-AreRows f.blocks)

  -- Every ruling of a block that `parse` answers has a read of the shape of a head sha, a rule of the
  -- shape of the findings log's, a file and a reason that are not blank and at most 400 and 600
  -- characters long, and a reference of at most 200 if any; there are at most 64 of them, under
  -- distinct rows: whatever the description is and whatever its lines are as JSON.
  pub parse-AreBounded :
      (description : Option Text) (b : Block)
      → parse u loads description ≡ some b
      → All IsBounded b.rulings × (length b.rulings ≤ 64) × Distinct (map (λ r. r.row) b.rulings)
  unfolding parse
  parse-AreBounded none b h = ground arith
  parse-AreBounded (some description) b h =
      let f = scan u none (splitlines false description) in
      elim (Bool-cases (length f.blocks + f.unclosed + f.swallowed == 0)) [
        | inl e ↦ let lost : none ≡ some b = rw e at h in ground arith
        | inr e ↦
            let it : read_found u loads f (unread_block u loads f) ≡ some b = rw e at h in
            let a = found-AreRows f (unread_block u loads f) b it in (a.bounded, a.few, a.apart)
      ]
