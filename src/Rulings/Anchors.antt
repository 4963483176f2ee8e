-- ===== src/Rulings/Anchors.antt =====
-- rulings.py: what `resolve` keeps is exactly what the stored reads bear out.
use doug.Prelude.{
  ◌≡◌, ◌≢◌, refl, ap, sym, ◌∙◌, true, false, ◌||◌, some, List, [], ◌∷◌, map, ◌==◌, nat_eq, list_eq,
  arith, any, keep, All, Bool-cases, Option-cases, inl, inr, Text, starts_with, list_beq_iff,
}
use mathlib.Core.Path.{subst}
use doug.Convergence.Patterns.{Unicode, rule_prefix}
use doug.Rulings.{Ruling, Why, PriorFinding, ResolvedRuling}
use doug.Rulings.Resolve.{
  Reads, is_named, on_path, files_of, kept, skipped, on_files, findings_of, at_shas, anchor,
}

module _ (u : Unicode) where
  -- A ruling anchored to the one read whose head sha it abbreviates, and to the findings of its rule
  -- there, which are on one file.
  pub record IsAnchored (reads : Reads) (r : Ruling) (x : ResolvedRuling) : Type 0 where
    pub its_ruling : x.ruling ≡ r
    pub one_read : keep (starts_with r.read) (map (λ e. e.0) reads) ≡ x.head_sha ∷ []
    pub is_finding : starts_with rule_prefix r.rule ≡ true
    pub one_file :
        All (λ f. f.file ≡ some x.file) (keep (is_named u r) (findings_of u x.head_sha reads))
    pub some_finding : keep (is_named u r) (findings_of u x.head_sha reads) ≢ []
    pub its_labels :
        x.raised ≡ map (λ f. f.label) (keep (is_named u r) (findings_of u x.head_sha reads))

  abbrev HasFile : PriorFinding → Type 0
  HasFile f = (g : Text) × (f.file ≡ some g)

  on_path-HasFile : (r : Ruling) (f : PriorFinding) → on_path u r.file f.file ≡ true → HasFile f
  on_path-HasFile r f h = elim (Option-cases f.file) [
    | inl e ↦ let lost : false ≡ true = rw e at h in ground arith
    | inr found ↦ found
  ]

  named-HasFile : (r : Ruling) (fs : List PriorFinding) → All HasFile (keep (is_named u r) fs)
  unfolding is_named
  named-HasFile r [] = tt
  named-HasFile r (f ∷ fs) = elim (Bool-cases (is_named u r f)) [
    | inl e ↦ rw e (on_path-HasFile r f (ground arith), named-HasFile r fs)
    | inr e ↦ rw e (named-HasFile r fs)
  ]

  files_of-none : (fs : List PriorFinding) → All HasFile fs → files_of u fs ≡ [] → fs ≡ []
  unfolding files_of
  files_of-none [] h e = refl
  files_of-none (f ∷ fs) ((g, e'), h) e = elim (Bool-cases (any (λ x. x == g) (files_of u fs))) [
    | inl t ↦
        let rest : files_of u fs ≡ [] = rw (e', t) at e in
        let lost : false ≡ true = rw rest at t in ground arith
    | inr t ↦ let lost : g ∷ files_of u fs ≡ [] = rw (e', t) at e in ground arith
  ]

  files_of-one :
      (fs : List PriorFinding) (file : Text)
      → All HasFile fs
      → files_of u fs ≡ file ∷ []
      → All (λ f. f.file ≡ some file) fs × (fs ≢ [])
  unfolding files_of
  files_of-one [] file h e = ground arith
  files_of-one (f ∷ fs) file ((g, e'), h) e =
      elim (Bool-cases (any (λ x. x == g) (files_of u fs))) [
        | inl t ↦
            let rest : files_of u fs ≡ file ∷ [] = rw (e', t) at e in
            let hit : (file == g) || false ≡ true = rw rest at t in
            let same : file ≡ g = (list_beq_iff file g).0 (ground arith) in
            ((e' ∙ ap some (sym same), (files_of-one fs file h rest).0), λ x. ground arith)
        | inr t ↦
            let it : g ∷ files_of u fs ≡ file ∷ [] = rw (e', t) at e in
            let same : g ≡ file = cc in
            let rest : files_of u fs ≡ [] = cc in
            let gone = files_of-none fs h rest in
            ((e' ∙ ap some same, rw gone tt), λ x. ground arith)
      ]

  one-files_of :
      (fs : List PriorFinding) (file : Text)
      → All (λ f. f.file ≡ some file) fs
      → fs ≢ []
      → files_of u fs ≡ file ∷ []
  unfolding files_of
  one-files_of [] file h e = absurd (e refl)
  one-files_of (f ∷ []) file h e = rw (h.0) refl
  one-files_of (f ∷ g ∷ fs) file h e =
      let rest : files_of u (g ∷ fs) ≡ file ∷ [] =
        one-files_of (g ∷ fs) file h.1 (λ x. ground arith) in
      let same : (file == file) ≡ true = (list_beq_iff file file).1 refl in
      rw (h.0, rest, same) refl

  on_files-kept :
      (r : Ruling) (sha : Text) (ms : List PriorFinding) (files : List Text) (x : ResolvedRuling)
      → on_files u r sha ms files ≡ kept x
      → (files ≡ x.file ∷ [])
        × (x.ruling ≡ r)
        × (x.head_sha ≡ sha)
        × (x.raised ≡ map (λ f. f.label) ms)
  on_files-kept r sha ms [] x h = ground arith
  on_files-kept r sha ms (file ∷ []) x h =
      let y : ResolvedRuling = record {
        ruling = r;
        head_sha = sha;
        file = file;
        raised = map (λ f. f.label) ms;
      } in
      let same : y ≡ x = cc in
      subst
        (λ z.
          (file ∷ [] ≡ z.file ∷ [])
          × (z.ruling ≡ r)
          × (z.head_sha ≡ sha)
          × (z.raised ≡ map (λ f. f.label) ms))
        same (refl, refl, refl, refl)
  on_files-kept r sha ms (file ∷ other ∷ files) x h = ground arith

  at_shas-IsAnchored :
      (reads : Reads) (r : Ruling) (shas : List Text) (x : ResolvedRuling)
      → keep (starts_with r.read) (map (λ e. e.0) reads) ≡ shas
      → at_shas u r reads shas ≡ kept x
      → IsAnchored reads r x
  at_shas-IsAnchored reads r [] x e h = ground arith
  at_shas-IsAnchored reads r (sha ∷ other ∷ shas) x e h = ground arith
  at_shas-IsAnchored reads r (sha ∷ []) x e h = elim (Bool-cases (starts_with rule_prefix r.rule)) [
    | inr p ↦ let lost : skipped (Why.not_a_finding r.rule) ≡ kept x = rw p at h in ground arith
    | inl p ↦
        let ms = keep (is_named u r) (findings_of u sha reads) in
        let it : on_files u r sha ms (files_of u ms) ≡ kept x = rw p at h in
        let (files, its, at_sha, labels) = on_files-kept r sha ms (files_of u ms) x it in
        let (on_file, some_one) =
          files_of-one ms x.file (named-HasFile r (findings_of u sha reads)) files in
        record {
          its_ruling = its;
          one_read = rw at_sha e;
          is_finding = p;
          one_file = rw at_sha on_file;
          some_finding = rw at_sha some_one;
          its_labels = rw at_sha labels;
        }
  ]

  pub anchor-IsAnchored :
      (reads : Reads) (r : Ruling) (x : ResolvedRuling)
      → anchor u reads r ≡ kept x
      → IsAnchored reads r x
  unfolding anchor
  anchor-IsAnchored reads r x h = at_shas-IsAnchored reads r _ x refl h

  pub IsAnchored-anchor :
      (reads : Reads) (r : Ruling) (x : ResolvedRuling)
      → IsAnchored reads r x
      → anchor u reads r ≡ kept x
  unfolding anchor
  IsAnchored-anchor reads r x a =
      let ms = keep (is_named u r) (findings_of u x.head_sha reads) in
      let files = one-files_of ms x.file a.one_file a.some_finding in
      rw (a.one_read, a.is_finding, files) (ap kept (whole a.its_ruling a.its_labels))
    where
      whole :
          x.ruling ≡ r
          → x.raised ≡ map (λ f. f.label) (keep (is_named u r) (findings_of u x.head_sha reads))
          → record {
            ruling = r;
            head_sha = x.head_sha;
            file = x.file;
            raised = map (λ f. f.label) (keep (is_named u r) (findings_of u x.head_sha reads));
          }
            ≡ x
      whole e f = rw (← f, ← e) refl
