-- ===== src/Rulings/Settled.antt =====
-- rulings.py: what becomes of each ruling of a block.
use doug.Prelude.{
  ◌+◌, ◌≡◌, ◌⊎◌, refl, sym, ◌∙◌, some, List, [], ◌∷◌, ◌++◌, arith, length, length-append, All,
  All-map_at, In, here, there, inl, inr,
}
use doug.Convergence.Patterns.{Unicode}
use doug.Rulings.{Ruling, Why, Skipped, Block, ResolvedRuling, Resolved}
use doug.Rulings.Resolve.{
  Reads, Anchored, kept, skipped, anchor, add_anchored, resolve_all, resolve,
}
use doug.Rulings.Anchors.{IsAnchored, anchor-IsAnchored, IsAnchored-anchor}

module _ (u : Unicode) (reads : Reads) where
  -- One ruling, and what the result says of it.
  abbrev Answered : Resolved → Ruling → Type 0
  Answered result r =
      ((x : ResolvedRuling) × In x result.rulings × IsAnchored u reads r x)
      ⊎ ((w : Why) × In (record { row = some r.row; reason = w }) result.skipped
          × ((x : ResolvedRuling) → IsAnchored u reads r x → ⊥))

  -- What `resolve` owes for a block: every ruling is kept where it is anchored and skipped, under its
  -- row, where nothing anchors it; and nothing else is kept.
  pub record IsSettled (block : Block) (result : Resolved) : Type 0 where
    pub anchored :
        All (λ x. (r : Ruling) × In r block.rulings × IsAnchored u reads r x) result.rulings
    pub answered : All (Answered result) block.rulings
    pub counted :
        length result.rulings + length result.skipped ≡ length block.skipped + length block.rulings

  abbrev alone : List Ruling → Block
  alone rs = record { rulings = rs; skipped = [] }

  kept≢skipped : {x : ResolvedRuling} {w : Why} → kept x ≡ skipped w → ⊥
  kept≢skipped h = ground arith

  grow_kept :
      (x : ResolvedRuling) (t : Resolved) (r : Ruling)
      → Answered t r
      → Answered (record t { rulings = x ∷ t.rulings }) r
  grow_kept x t r (inl (y, m, a)) = inl (y, there m, a)
  grow_kept x t r (inr w) = inr w

  grow_skipped :
      (s : Skipped) (t : Resolved) (r : Ruling)
      → Answered t r
      → Answered (record t { skipped = s ∷ t.skipped }) r
  grow_skipped s t r (inl k) = inl k
  grow_skipped s t r (inr (w, m, a)) = inr (w, there m, a)

  add-IsSettled :
      (r : Ruling) (rs : List Ruling) (a : Anchored) (t : Resolved)
      → anchor u reads r ≡ a
      → IsSettled (alone rs) t
      → IsSettled (alone (r ∷ rs)) (add_anchored u r.row a t)
  add-IsSettled r rs (kept x) t e s =
      let it = anchor-IsAnchored u reads r x e in
      record {
        anchored = ((r, here, it), All-map_at (λ y k. (k.0, there k.1, k.2)) t.rulings s.anchored);
        answered = (inl (x, here, it), All-map_at (grow_kept x t) rs s.answered);
        counted = omega (arith, s.counted);
      }
  add-IsSettled r rs (skipped w) t e s = record {
    anchored = All-map_at (λ y k. (k.0, there k.1, k.2)) t.rulings s.anchored;
    answered = (
      inr (w, here, λ x b. kept≢skipped (sym (IsAnchored-anchor u reads r x b) ∙ e)),
      All-map_at (grow_skipped (record { row = some r.row; reason = w }) t) rs s.answered,
    );
    counted = omega (arith, s.counted);
  }

  resolve_all-IsSettled : (rs : List Ruling) → IsSettled (alone rs) (resolve_all u reads rs)
  unfolding resolve_all
  resolve_all-IsSettled [] = record { anchored = tt; answered = tt; counted = refl }
  resolve_all-IsSettled (r ∷ rs) =
      add-IsSettled r rs (anchor u reads r) (resolve_all u reads rs) refl (resolve_all-IsSettled rs)

  In-append_right :
      {s : Skipped} (xs : List Skipped) {ys : List Skipped} → In s ys → In s (xs ++ ys)
  In-append_right [] m = m
  In-append_right (x ∷ xs) m = there (In-append_right xs m)

  later :
      (xs : List Skipped) (t : Resolved) (r : Ruling)
      → Answered t r
      → Answered (record t { skipped = xs ++ t.skipped }) r
  later xs t r (inl k) = inl k
  later xs t r (inr (w, m, a)) = inr (w, In-append_right xs m, a)

  -- Whatever the author wrote and whatever is stored, each ruling of the block is kept with its anchor
  -- or skipped under its row, and it is skipped only where no anchor exists. A kept ruling abbreviates
  -- the head sha of exactly one stored read, is a finding's rule, and that read stored a finding of
  -- this rule on a file that is spelled so, every such finding on one file; what is quoted are their
  -- labels. No ruling is lost or counted twice.
  pub resolve-IsSettled : (block : Block) → IsSettled block (resolve u reads block)
  unfolding resolve
  resolve-IsSettled block =
      let s = resolve_all-IsSettled block.rulings in
      let t = resolve_all u reads block.rulings in
      let sizes = length-append block.skipped t.skipped in
      record {
        anchored = s.anchored;
        answered = All-map_at (later block.skipped t) block.rulings s.answered;
        counted = omega (arith, s.counted);
      }
