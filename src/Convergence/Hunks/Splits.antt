-- ===== src/Convergence/Hunks/Splits.antt =====
-- hunks.py: what `split_hunks` keeps of a patch, and what a hunk's hash depends on.
use doug.Prelude.{
  ℕ, ◌≡◌, ◌≢◌, refl, ap, ◌∙◌, sym, true, false, none, some, List, [], ◌∷◌, ◌++◌, arith, ◌==◌,
  nat_eq, if◌then◌else◌, All, keep, Text, starts_with, Bool-cases, inl, inr,
}
use mathlib.Core.Bool.{false≢true}
use mathlib.Core.List.{append_assoc}
use doug.Convergence.Hunks.{
  is_break, cons_line, splitlines, join_lines, opens_hunk, hunks_from, is_changed, hash_hunk,
}

abbrev pub concat : List (List Text) → List Text
concat [] = []
concat (h ∷ hs) = h ++ concat hs

-- The lines from the first that opens a hunk.
abbrev pub from_first_hunk : List Text → List Text
from_first_hunk [] = []
from_first_hunk (l ∷ ls) = let rest = from_first_hunk ls in if opens_hunk l then l ∷ ls else rest

-- A hunk is an opening line and lines that open none.
abbrev pub IsHunk : List Text → Type 0
IsHunk [] = ⊥
IsHunk (l ∷ ls) = (opens_hunk l ≡ true) × All (λ m. opens_hunk m ≡ false) ls

IsHunk-append : (h : List Text) (l : Text) → IsHunk h → opens_hunk l ≡ false → IsHunk (h ++ l ∷ [])
IsHunk-append [] l h e = elim h [ ]
IsHunk-append (m ∷ ms) l h e = (h.0, all_closed ms h.1)
  where
    all_closed :
        (ms : List Text)
        → All (λ m. opens_hunk m ≡ false) ms
        → All (λ m. opens_hunk m ≡ false) (ms ++ l ∷ [])
    all_closed [] k = (e, tt)
    all_closed (m ∷ ms) k = (k.0, all_closed ms k.1)

hunks_some-IsHunk : (lines h : List Text) → IsHunk h → All IsHunk (hunks_from (some h) lines)
unfolding hunks_from
hunks_some-IsHunk [] h k = (k, tt)
hunks_some-IsHunk (l ∷ ls) h k = elim (Bool-cases (opens_hunk l)) [
  | inl e ↦ rw e (k, hunks_some-IsHunk ls (l ∷ []) (e, tt))
  | inr e ↦ rw e (hunks_some-IsHunk ls (h ++ l ∷ []) (IsHunk-append h l k e))
]

hunks_some-concat : (lines h : List Text) → concat (hunks_from (some h) lines) ≡ h ++ lines
unfolding hunks_from
hunks_some-concat [] h = refl
hunks_some-concat (l ∷ ls) h = elim (Bool-cases (opens_hunk l)) [
  | inl e ↦ rw e (ap (◌++◌ h) (hunks_some-concat ls (l ∷ [])))
  | inr e ↦ rw e (hunks_some-concat ls (h ++ l ∷ []) ∙ append_assoc h (l ∷ []) ls)
]

-- The loop of `split_hunks` over any lines drops those before the first hunk and cuts the rest into
-- hunks, losing and reordering none: each begins with its only line that starts with "@@".
pub hunks_from-cuts :
    (lines : List Text)
    → All IsHunk (hunks_from none lines) × (concat (hunks_from none lines) ≡ from_first_hunk lines)
unfolding hunks_from
hunks_from-cuts [] = (tt, refl)
hunks_from-cuts (l ∷ ls) = elim (Bool-cases (opens_hunk l)) [
  | inl e ↦ rw e (hunks_some-IsHunk ls (l ∷ []) (e, tt), hunks_some-concat ls (l ∷ []))
  | inr e ↦ rw e (hunks_from-cuts ls)
]

-- A line as `splitlines` gives it.
abbrev pub IsLine : Text → Type 0
IsLine l = All (λ c. is_break c ≡ false) l

not_return : (c : ℕ) → is_break c ≡ false → (c == 13) ≡ false
not_return c h = ground arith

splitlines-append :
    (l rest : Text) → IsLine l → splitlines false (l ++ 10 ∷ rest) ≡ l ∷ splitlines false rest
unfolding splitlines
splitlines-append [] rest h = refl
splitlines-append (c ∷ l) rest h =
    rw (h.0, not_return c h.0) (ap (cons_line c) (splitlines-append l rest h.1))

splitlines-line : (c : ℕ) (l : Text) → IsLine (c ∷ l) → splitlines false (c ∷ l) ≡ (c ∷ l) ∷ []
unfolding splitlines
splitlines-line c [] h = rw (h.0) refl
splitlines-line c (d ∷ l) h =
    rw (h.0, not_return c h.0) (ap (cons_line c) (splitlines-line d l h.1))

keep_changed-splitlines :
    (ls : List Text)
    → All IsLine ls
    → keep is_changed (splitlines false (join_lines ls)) ≡ keep is_changed ls
unfolding splitlines starts_with
keep_changed-splitlines [] h = refl
keep_changed-splitlines ([] ∷ []) h = refl
keep_changed-splitlines ((c ∷ l) ∷ []) h = ap (keep is_changed) (splitlines-line c l h.0)
keep_changed-splitlines (l ∷ m ∷ ls) h =
    ap (keep is_changed) (splitlines-append l (join_lines (m ∷ ls)) h.0)
    ∙ elim (Bool-cases (is_changed l)) [
      | inl e ↦ rw e (ap (◌∷◌ l) (keep_changed-splitlines (m ∷ ls) h.1))
      | inr e ↦ rw e (keep_changed-splitlines (m ∷ ls) h.1)
    ]

-- The changed lines of a hunk, told by their first characters: the lines that begin with "+" or "-",
-- in their order, and no other.
pub data Changes : List Text → List Text → Type 0 where
  no_lines : Changes [] []
  added : {l : Text} {ls ks : List Text} → Changes ls ks → Changes ((43 ∷ l) ∷ ls) ((43 ∷ l) ∷ ks)
  removed : {l : Text} {ls ks : List Text} → Changes ls ks → Changes ((45 ∷ l) ∷ ls) ((45 ∷ l) ∷ ks)
  empty_line : {ls ks : List Text} → Changes ls ks → Changes ([] ∷ ls) ks
  other_line :
      {c : ℕ} {l : Text} {ls ks : List Text}
      → c ≢ 43
      → c ≢ 45
      → Changes ls ks
      → Changes ((c ∷ l) ∷ ls) ks

keep_changed-Changes : (ls : List Text) → Changes ls (keep is_changed ls)
unfolding starts_with
keep_changed-Changes [] = no_lines
keep_changed-Changes ([] ∷ ls) = empty_line (keep_changed-Changes ls)
keep_changed-Changes ((c ∷ l) ∷ ls) = elim (Bool-cases (c == 43)) [
  | inl e ↦ let q : c ≡ 43 = (nat_eq.same_iff c 43).0 e in rw q (added (keep_changed-Changes ls))
  | inr e ↦ elim (Bool-cases (c == 45)) [
    | inl f ↦
        let q : c ≡ 45 = (nat_eq.same_iff c 45).0 f in rw q (removed (keep_changed-Changes ls))
    | inr f ↦
        rw (e, f)
          (other_line (λ q. false≢true (sym e ∙ (nat_eq.same_iff c 43).1 q))
            (λ q. false≢true (sym f ∙ (nat_eq.same_iff c 45).1 q)) (keep_changed-Changes ls))
  ]
]

Changes-unique : {ls ks ms : List Text} → Changes ls ks → Changes ls ms → ks ≡ ms
Changes-unique no_lines no_lines = refl
Changes-unique (added h) (added g) = let same = Changes-unique h g in cc
Changes-unique (added h) (other_line n m g) = absurd (n refl)
Changes-unique (removed h) (removed g) = let same = Changes-unique h g in cc
Changes-unique (removed h) (other_line n m g) = absurd (m refl)
Changes-unique (empty_line h) (empty_line g) = Changes-unique h g
Changes-unique (other_line n m h) (added g) = absurd (n refl)
Changes-unique (other_line n m h) (removed g) = absurd (m refl)
Changes-unique (other_line n m h) (other_line a b g) = Changes-unique h g

-- The hash of a hunk is the hash of its changed lines, which are the lines that begin with "+" or "-"
-- in their order, joined by newlines: nothing else of it enters, whatever its header, its context
-- lines and its "no newline" marks are, and each changed line does.
pub hash_hunk-changed :
    (sha256 : Text → Text) (lines changes : List Text)
    → All IsLine lines
    → Changes lines changes
    → hash_hunk sha256 (join_lines lines) ≡ sha256 (join_lines changes)
unfolding hash_hunk
hash_hunk-changed sha256 lines changes h c =
    ap (λ x. sha256 (join_lines x))
      (keep_changed-splitlines lines h ∙ Changes-unique (keep_changed-Changes lines) c)
