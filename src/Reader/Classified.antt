-- ===== src/Reader/Classified.antt =====
-- reader.py: the evidence of a finding, against the text that the read sent.
use doug.Prelude.{
  ℕ, ◌≡◌, refl, ◌∙◌, ◌⊎◌, ◌≢◌, Bool, true, Option, none, some, List, [], ◌∷◌, length, Text, ◌==◌,
  list_eq, option_eq, nat_eq, arith, Bool-cases, Option-cases, inl, inr, All, All-at, In, In-cases,
  here, there, any, any-true, find?, find?-some,
}
use doug.Reader.{
  Index, Coverage, whole, part, unread, FindingEvidence, in_diff, head_cited, partial_read,
  outside_read, ReaderFinding, sent_slice, or_default, known, shortens, has_item, match_of, read_in,
  read_of, read_as, tag, classify_by_coverage, coverage, index_chunks,
}
use doug.Reader.Indexed.{IsIndexed, index_chunks-IsIndexed}
use doug.Reader.Headers.{file_headers}

-- The path is the file's, or the one is the other without its first directories.
pub Names : Text → Text → Type 0
Names path name = (name ≡ path) ⊎ (shortens path name ≡ true)

module _ (set_order : List Text → List Text) where
  match_of-Names :
      (names : List Text) (path : Text) {name : Text}
      → match_of set_order names path ≡ some name
      → Names path name
  unfolding match_of Names
  match_of-Names names path {name} h = elim (Bool-cases (any (λ k. k == path) names)) [
    | inl e ↦ let q : name ≡ path = ground arith in inl q
    | inr e ↦
        let q : find? (shortens path) (set_order names) ≡ some name = ground arith in
        inr ((find?-some (shortens path) (set_order names) q).1)
  ]

  read_as-whole :
      (cov : Coverage) (index : Index) (o : Option Text)
      → read_as cov index o ≡ whole
      → (name : Text) × (o ≡ some name) × (has_item name index ≡ true)
  unfolding read_as
  read_as-whole cov index none h = let no : unread ≡ whole = h in absurd (ground arith)
  read_as-whole cov index (some name) h = elim (Bool-cases (has_item name index)) [
    | inl e ↦ (name, refl, e)
    | inr e ↦ absurd (ground arith)
  ]

  read_of-whole :
      (cov : Coverage) (path : Text) {index : Index}
      → cov.hunks ≡ some index
      → read_of set_order cov path ≡ some whole
      → (name : Text) × Names path name × (has_item name index ≡ true)
  unfolding read_of read_in
  read_of-whole cov path {index} q h =
      let as_whole : read_as cov index (match_of set_order (known cov index) path) ≡ whole =
        ground (arith, rw q at h) in
      let (name, found, held) = read_as-whole cov index _ as_whole in
      (name, match_of-Names (known cov index) path found, held)

  read_of-found :
      (cov : Coverage) (path : Text) {index : Index}
      → cov.hunks ≡ some index
      → read_of set_order cov path ≢ none
  unfolding read_of read_in
  read_of-found cov path q h = ground (arith, rw q at h)

  -- What `classify_by_coverage` leaves as evidence from the diff was so before, and was read whole
  -- or of a coverage without an index.
  tag-in_diff :
      (cov : Coverage) (v : FindingEvidence) (f : ReaderFinding)
      → (tag set_order cov v f).evidence ≡ in_diff
      → f.evidence ≡ v
      → (tag set_order cov v f ≡ f)
        × ((read_of set_order cov f.file ≡ none) ⊎ (read_of set_order cov f.file ≡ some whole))
  unfolding tag
  tag-in_diff cov in_diff f h q = elim (Option-cases (read_of set_order cov f.file)) [
    | inl e ↦ (rw e refl, inl e)
    | inr (whole, e) ↦ (rw e refl, inr e)
    | inr (part, e) ↦ ground (arith, rw e at h)
    | inr (unread, e) ↦ ground (arith, rw e at h)
  ]
  tag-in_diff cov head_cited f h q = ground arith
  tag-in_diff cov partial_read f h q = ground arith
  tag-in_diff cov outside_read f h q = ground arith

-- A file of the diff that the path names, with a chunk that was sent in full.
pub IsReadWhole : (ℕ → Bool) → (Text → Text) → Text → Option ℕ → Text → Type 0
IsReadWhole is_decimal sha256 diff budget path =
    (name : Text) × (hashes : List Text) × Names path name
    × IsIndexed sha256 (or_default budget) diff (file_headers is_decimal diff) (name, hashes)

module _ (is_decimal : ℕ → Bool) (sha256 : Text → Text) (diff : Text) where
  module _ (changed_files : Option ℕ) (dropped : List Text) (budget : Option ℕ) where
    pub index-IsIndexed :
        All (IsIndexed sha256 (or_default budget) diff (file_headers is_decimal diff)) (
          index_chunks sha256 diff
            (length (sent_slice diff budget))
            []
            (file_headers is_decimal diff))
    index-IsIndexed =
        index_chunks-IsIndexed sha256 (or_default budget) diff (file_headers is_decimal diff) []
          (file_headers is_decimal diff) [] refl tt

    indexed-IsReadWhole :
        (path name : Text)
        → Names path name
        → has_item name (
            index_chunks sha256 diff
              (length (sent_slice diff budget))
              []
              (file_headers is_decimal diff))
          ≡ true
        → IsReadWhole is_decimal sha256 diff budget path
    unfolding IsReadWhole
    indexed-IsReadWhole path name names h =
        let (e, member, same) = any-true {A = Text × List Text} (λ e. e.0 == name) _ h in
        let q : e.0 ≡ name = (list_eq.same_iff e.0 name).0 same in
        (name, e.1, names, rw (← q) (All-at _ index-IsIndexed member))

    indexed :
        (coverage is_decimal sha256 diff changed_files dropped budget).hunks
        ≡ some (
            index_chunks sha256 diff
              (length (sent_slice diff budget))
              []
              (file_headers is_decimal diff))
    unfolding coverage
    indexed = refl

    -- A finding that `classify_by_coverage` leaves as evidence from the diff, against the coverage of
    -- that diff under any budget, is one of the given findings, unchanged, and names a file, by its
    -- path or by a path that is shortened or lengthened at the front, of which the read sent
    -- everything: a header of the diff has that file's name, the chunk under it ends within the text
    -- that was sent, and the hashes that the index holds for the file are those of the hunks which
    -- the sent text, not the diff, has there. This is so for every order of the members of a set.
    pub classify_by_coverage-IsReadWhole :
        (set_order : List Text → List Text) (findings : List ReaderFinding) (f : ReaderFinding)
        → In f (
            classify_by_coverage set_order findings
              (coverage is_decimal sha256 diff changed_files dropped budget))
        → f.evidence ≡ in_diff
        → In f findings × IsReadWhole is_decimal sha256 diff budget f.file
    unfolding classify_by_coverage
    classify_by_coverage-IsReadWhole set_order (g ∷ findings) f member h = elim (In-cases member) [
      | inl same ↦
          let cov = coverage is_decimal sha256 diff changed_files dropped budget in
          let (kept, read) = tag-in_diff set_order cov g.evidence g (rw same at h) refl in
          let whole_read : read_of set_order cov g.file ≡ some whole = elim read [
            | inl e ↦ absurd (read_of-found set_order cov g.file indexed e)
            | inr e ↦ e
          ] in
          let (name, names, held) = read_of-whole set_order cov g.file indexed whole_read in
          rw (same ∙ kept) (here, indexed-IsReadWhole g.file name names held)
      | inr later ↦
          let (m, r) = classify_by_coverage-IsReadWhole set_order findings f later h in (there m, r)
    ]
    classify_by_coverage-IsReadWhole set_order [] f member h = elim member [ ]
