-- ===== src/Reader/Indexed.antt =====
-- reader.py: the index of the hunks that were sent.
use doug.Prelude.{
  ℕ, ◌≡◌, refl, sym, ap, ◌∙◌, List, [], ◌∷◌, ◌++◌, length, take, Text, ◌==◌, list_eq, nat_eq,
  Bool-cases, Option-cases, inl, inr, All,
}
use doug.Reader.{Index, set_item, hashes_of, index_chunks, chunk_patch}
use doug.Reader.Geometry.{IsSentChunk, chunk_patch-IsSentChunk}
use doug.Reader.Headers.{Match}

module _ {ℓ} {V : Type ℓ} where
  pub All-set_item {κ} :
      (P : Text × V → Type κ) (key : Text) (value : V) (dict : List (Text × V))
      → P (key, value)
      → All P dict
      → All P (set_item key value dict)
  unfolding set_item
  All-set_item P key value [] p h = (p, tt)
  All-set_item P key value ((k, v) ∷ rest) p h = elim (Bool-cases (k == key)) [
    | inl e ↦ rw e (let q : k ≡ key = (list_eq.same_iff k key).0 e in rw q (p, h.1))
    | inr e ↦ rw e (h.0, All-set_item P key value rest p h.1)
  ]

-- The hashes of a file of the diff are those of a chunk that was sent in full.
pub IsIndexed : (Text → Text) → ℕ → Text → List Match → Text × List Text → Type 0
IsIndexed sha256 n diff all e =
    (before : List Match) × (m : Match) × (later : List Match) × (patch : Text) × (all
      ≡ before ++ m ∷ later)
    × (m.name ≡ e.0)
    × IsSentChunk diff (take n diff) m later patch
    × (e.1 ≡ hashes_of sha256 patch)

append_one {ℓ} :
    {A : Type ℓ} (xs : List A) (x : A) (ys : List A) → (xs ++ x ∷ []) ++ ys ≡ xs ++ x ∷ ys
append_one [] x ys = refl
append_one (z ∷ xs) x ys = ap (◌∷◌ z) (append_one xs x ys)

module _ (sha256 : Text → Text) (n : ℕ) (diff : Text) where
  pub index_chunks-IsIndexed :
      (all before matches : List Match) (index : Index)
      → all ≡ before ++ matches
      → All (IsIndexed sha256 n diff all) index
      → All
          (IsIndexed sha256 n diff all)
          (index_chunks sha256 diff (length (take n diff)) index matches)
  unfolding index_chunks IsIndexed
  index_chunks-IsIndexed all before [] index q h = h
  index_chunks-IsIndexed all before (m ∷ later) index q h =
      let next = all ≡ (before ++ m ∷ []) ++ later in
      let onward : next = q ∙ sym (append_one before m later) in
      elim (Option-cases (chunk_patch diff m later (length (take n diff)))) [
        | inl e ↦ rw e (index_chunks-IsIndexed all (before ++ m ∷ []) later index onward h)
        | inr (patch, e) ↦
            let chunk = chunk_patch-IsSentChunk n diff m later e in
            rw e (
              index_chunks-IsIndexed all (before ++ m ∷ []) later _ onward (
                All-set_item (IsIndexed sha256 n diff all) m.name (hashes_of sha256 patch) index
                  (before, m, later, patch, q, refl, chunk, refl) h))
      ]
