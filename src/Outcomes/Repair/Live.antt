-- ===== src/Outcomes/Repair/Live.antt =====
-- transfer_repair.py: `_live_installations` and `outcome_queue._live_registration` are one choice.
use doug.Prelude.{
  ℕ, ◌≡◌, refl, ap, ◌∙◌, Bool, true, false, Option, none, some, List, [], ◌∷◌, ◌==◌, nat_eq,
  string_eq, arith, keep, All, All-at, All-map_at, In, here, there, insert_by, sort_by, Bool-cases,
  Option-cases, inl, inr, if◌then◌else◌,
}
use mathlib.Core.Path.{subst}
use doug.Outcomes.Queue.{
  InstallationRepo, Ledger, covers, newer, newest_of, newest, live_registration,
}
use doug.Outcomes.Repair.{
  has, is_live, older, live_rows, or_this, last_of, installation_of, live_installation,
}

-- In the order of `(updated_at, id)`.
abbrev Sorted : List InstallationRepo → Type 0
Sorted [] = Unit
Sorted (r ∷ rs) = All (λ s. older s r ≡ false) rs × Sorted rs

older_trans : (a b c : InstallationRepo) → older b a ≡ false → older c b ≡ false → older c a ≡ false
older_trans a b c h k = ground arith

insert-All :
    (a x : InstallationRepo) (ys : List InstallationRepo)
    → older x a ≡ false
    → All (λ s. older s a ≡ false) ys
    → All (λ s. older s a ≡ false) (insert_by older x ys)
insert-All a x [] h k = (h, tt)
insert-All a x (y ∷ ys) h k = elim (Bool-cases (older x y)) [
  | inl e ↦ rw e (h, k)
  | inr e ↦ rw e (k.0, insert-All a x ys h k.1)
]

older_asym : (a b : InstallationRepo) → older a b ≡ true → older b a ≡ false
older_asym a b h = ground arith

insert-Sorted :
    (x : InstallationRepo) (ys : List InstallationRepo) → Sorted ys → Sorted (insert_by older x ys)
insert-Sorted x [] s = (tt, tt)
insert-Sorted x (y ∷ ys) s = elim (Bool-cases (older x y)) [
  | inl e ↦
      let first = older_asym x y e in
      rw e ((first, All-map_at (λ z h. older_trans x y z first h) ys s.0), s)
  | inr e ↦ rw e (insert-All y x ys e s.0, insert-Sorted x ys s.1)
]

sort-Sorted : (rs : List InstallationRepo) → Sorted (sort_by older rs)
sort-Sorted [] = tt
sort-Sorted (r ∷ rs) = insert-Sorted r (sort_by older rs) (sort-Sorted rs)

last_of-In :
    (repo : ℕ) (rs : List InstallationRepo) (m : InstallationRepo)
    → last_of repo rs ≡ some m
    → In m rs
unfolding last_of
last_of-In repo [] m h = ground arith
last_of-In repo (r ∷ rs) m h = elim (Option-cases (last_of repo rs)) [
  | inr (n, e) ↦ let it : some n ≡ some m = rw e at h in there (last_of-In repo rs m (e ∙ it))
  | inl e ↦ elim (Bool-cases (r.github_repo_id == repo)) [
    | inl f ↦
        let it : some r ≡ some m = rw (e, f) at h in
        let same : r ≡ m = cc in subst (λ z. In z (r ∷ rs)) same here
    | inr f ↦ let lost : none ≡ some m = rw (e, f) at h in ground arith
  ]
]

older_refl : (a : InstallationRepo) → older a a ≡ false
older_refl a = ground arith

older_then : (x y m : InstallationRepo) → older x y ≡ true → older m y ≡ false → newer x m ≡ false
older_then x y m h k = ground arith

not_older : (x y : InstallationRepo) → older x y ≡ false → newer x y ≡ true
not_older x y h = ground arith

from_head :
    (y m : InstallationRepo) (ys : List InstallationRepo)
    → Sorted (y ∷ ys)
    → In m (y ∷ ys)
    → older m y ≡ false
from_head y m ys s here = older_refl y
from_head y m ys s (there n) = All-at (λ z. older z y ≡ false) s.0 n

abbrev only_if : Bool → InstallationRepo → Option InstallationRepo
only_if b r = if b then some r else none

-- The last row of a list that begins with `x`, and of one that begins with `y` and has `x` later.
last_from_front :
    (p : Bool) (x : InstallationRepo) (l : Option InstallationRepo)
    → ((m : InstallationRepo) → l ≡ some m → newer x m ≡ false)
    → or_this l (only_if p x) ≡ (if p then some (newest_of x l) else l)
last_from_front true x none h = refl
last_from_front false x none h = refl
last_from_front true x (some m) h = rw (h m refl) refl
last_from_front false x (some m) h = refl

last_behind :
    (p q : Bool) (x y : InstallationRepo) (l : Option InstallationRepo)
    → newer x y ≡ true
    → or_this (if p then some (newest_of x l) else l) (only_if q y)
      ≡ (if p then some (newest_of x (or_this l (only_if q y))) else or_this l (only_if q y))
last_behind true true x y none h = rw h refl
last_behind true false x y none h = refl
last_behind true q x y (some m) h = refl
last_behind false q x y l h = refl

-- The row that a sort puts in is the last of its repository exactly where it is the newest.
insert-last_of :
    (repo : ℕ) (x : InstallationRepo) (ys : List InstallationRepo)
    → Sorted ys
    → last_of repo (insert_by older x ys)
      ≡ (if x.github_repo_id == repo then some (newest_of x (last_of repo ys)) else last_of repo ys)
unfolding last_of
insert-last_of repo x [] s = last_from_front (x.github_repo_id == repo) x none (λ m e. ground arith)
insert-last_of repo x (y ∷ ys) s = elim (Bool-cases (older x y)) [
  | inl e ↦ rw e (
      last_from_front (x.github_repo_id == repo) x (last_of repo (y ∷ ys))
        (λ m f. older_then x y m e (from_head y m ys s (last_of-In repo (y ∷ ys) m f))))
  | inr e ↦
      let rest = insert-last_of repo x ys s.1 in
      rw (e, rest)
        (last_behind (x.github_repo_id == repo) (y.github_repo_id == repo) x y (last_of repo ys)
          (not_older x y e))
]

-- A live row of a repository asked for covers it, and no other row does.
live-covers :
    (l : Ledger) (repos : List ℕ) (repo : ℕ) (r : InstallationRepo)
    → is_live l repos r ≡ true
    → covers l repo r ≡ (r.github_repo_id == repo)
unfolding is_live covers
live-covers l repos repo r h = ground arith

dead-covers :
    (l : Ledger) (repos : List ℕ) (repo : ℕ) (r : InstallationRepo)
    → has repos repo ≡ true
    → is_live l repos r ≡ false
    → covers l repo r ≡ false
unfolding is_live covers
dead-covers l repos repo r h k = elim (Bool-cases (r.github_repo_id == repo)) [
  | inl e ↦
      let same : r.github_repo_id ≡ repo = ground arith in
      let asked : has repos r.github_repo_id ≡ true = rw same h in ground arith
  | inr e ↦ rw e refl
]

rows_agree :
    (l : Ledger) (repos : List ℕ) (repo : ℕ)
    → has repos repo ≡ true
    → (rs : List InstallationRepo)
    → last_of repo (sort_by older (keep (is_live l repos) rs)) ≡ newest (covers l repo) rs
unfolding newest last_of
rows_agree l repos repo h [] = refl
rows_agree l repos repo h (r ∷ rs) = elim (Bool-cases (is_live l repos r)) [
  | inl e ↦
      let rest = rows_agree l repos repo h rs in
      let test = live-covers l repos repo r e in
      rw (e, test, ← rest)
        (insert-last_of repo r (sort_by older (keep (is_live l repos) rs))
          (sort-Sorted (keep (is_live l repos) rs)))
  | inr e ↦ let test = dead-covers l repos repo r h e in rw (e, test) (rows_agree l repos repo h rs)
]

-- The repair and the queue agree: for every repository asked for, the installation that the repair
-- takes to be live is that of the registration that the outcome lane would read through, and none
-- where it has none, whatever the order in which the tables hold their rows.
pub live_installation-agrees :
    (l : Ledger) (repos : List ℕ) (repo : ℕ)
    → has repos repo ≡ true
    → live_installation l repos repo ≡ installation_of (live_registration l repo)
unfolding live_installation live_rows live_registration
live_installation-agrees l repos repo h = ap installation_of (rows_agree l repos repo h l.repos)
