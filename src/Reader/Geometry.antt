-- ===== src/Reader/Geometry.antt =====
-- reader.py: the chunks of a diff that reached the model.
use doug.Prelude.{
  ℕ, zero, suc, ◌≤◌, ◌≡◌, refl, ap, some, List, [], ◌∷◌, ltb, leb, length, take, drop, Text, arith,
  Bool-cases, inl, inr,
}
use doug.Reader.{chunk_patch, chunk_content_end, slice}
use doug.Reader.Headers.{Match}

module _ {ℓ} {A : Type ℓ} where
  pub take-take : (a n : ℕ) (xs : List A) → a ≤ length (take n xs) → take a (take n xs) ≡ take a xs
  take-take zero n xs h = refl
  take-take (suc a) zero xs h = ground arith
  take-take (suc a) (suc n) [] h = refl
  take-take (suc a) (suc n) (x ∷ xs) h = ap (◌∷◌ x) (take-take a n xs (omega arith))

  -- Nothing is left past the end.
  drop-take_empty : (a b : ℕ) (xs : List A) → b ≤ a → drop a (take b xs) ≡ []
  drop-take_empty zero zero xs h = refl
  drop-take_empty zero (suc b) xs h = ground arith
  drop-take_empty (suc a) zero xs h = refl
  drop-take_empty (suc a) (suc b) [] h = refl
  drop-take_empty (suc a) (suc b) (x ∷ xs) h = drop-take_empty a b xs (omega arith)

-- A chunk of the text that was sent: the headers of the diff place it, and all of it was sent.
module _ (diff sent : Text) where
  pub IsSentChunk : Match → List Match → Text → Type 0
  IsSentChunk m later patch =
      let end = chunk_content_end later (length diff) in
      (end ≤ length sent) × (patch ≡ slice (suc m.end) end sent)

module _ (n : ℕ) (diff : Text) (m : Match) where
  pub chunk_patch-IsSentChunk :
      (later : List Match) {patch : Text}
      → chunk_patch diff m later (length (take n diff)) ≡ some patch
      → IsSentChunk diff (take n diff) m later patch
  unfolding chunk_patch IsSentChunk
  chunk_patch-IsSentChunk later {patch} h =
      let end = chunk_content_end later (length diff) in
      elim (Bool-cases (ltb (length (take n diff)) end)) [
        | inl late ↦ ground arith
        | inr early ↦
            let sent : end ≤ length (take n diff) = ground arith in
            elim (Bool-cases (leb (suc m.end) end)) [
              | inl inside ↦
                  let q : patch ≡ slice (suc m.end) end diff = ground arith in
                  (sent, rw (take-take end n diff sent) q)
              | inr empty ↦
                  let q : patch ≡ [] = ground arith in
                  (sent, rw (q, drop-take_empty (suc m.end) end (take n diff) (ground arith)) refl)
            ]
      ]
