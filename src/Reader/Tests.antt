-- ===== src/Reader/Tests.antt =====
-- reader.py: a diff of two files that is cut in the second, and the theorems at that diff.
use doug.Prelude.{
  ℕ, ◌≡◌, refl, Bool, ◌&&◌, leb, Option, none, some, List, [], ◌∷◌, ◌++◌, map, Text, codes, In,
  here, Distinct, starts_with,
}
use doug.Reader.{
  ReaderFinding, in_diff, partial_read, outside_read, coverage, classify_by_coverage,
  sent_file_patches, tag, read_of, read_in, read_as, match_of, chunk_patch, set_item, cut_of,
  shortens, patches_under, checked_patches, patches_from, drifts, get_item, hashes_of,
}
use doug.Convergence.Hunks.{split_hunks, hash_hunk}
use doug.Reader.Headers.{file_headers}
use doug.Reader.Classified.{IsReadWhole, classify_by_coverage-IsReadWhole}
use doug.Reader.Patches.{hashed, sent_file_patches-agrees}

abbrev is_decimal : ℕ → Bool
is_decimal c = leb 48 c && leb c 57

abbrev digest : Text → Text
digest t = t

abbrev same_order : List Text → List Text
same_order names = names

abbrev first_patch : Text
first_patch = codes "@@ -1 +1 @@" ++ 10 ∷ (codes "-old" ++ 10 ∷ codes "+new")

abbrev diff : Text
diff =
    codes "### api/x.py (modified, +1/-1)"
    ++ 10 ∷ (first_patch ++ 10 ∷ 10 ∷ (codes "### b.py (added, +1/-0)" ++ 10 ∷ codes "@@ -0 +1 @@"))

abbrev finding : Text → ReaderFinding
finding file = record {
  category_slug = codes "bug";
  description = codes "d";
  file = file;
  severity = codes "high";
  evidence = in_diff;
}

abbrev findings : List ReaderFinding
findings = finding (codes "x.py") ∷ finding (codes "b.py") ∷ finding (codes "c.py") ∷ []

abbrev budget : Option ℕ
budget = some 80

two_files :
    file_headers is_decimal diff
    ≡ record { name = codes "api/x.py"; start = 0; end = 30 }
      ∷ record { name = codes "b.py"; start = 54; end = 77 }
      ∷ []
unfolding file_headers starts_with
two_files = refl

tagged_findings :
    map
      (λ f. f.evidence)
      (classify_by_coverage same_order findings (coverage is_decimal digest diff none [] budget))
    ≡ in_diff ∷ partial_read ∷ outside_read ∷ []
unfolding coverage classify_by_coverage file_headers starts_with tag read_of read_in read_as
    match_of chunk_patch set_item cut_of shortens
tagged_findings = refl

x_is_tagged :
    In
      (finding (codes "x.py"))
      (classify_by_coverage same_order findings (coverage is_decimal digest diff none [] budget))
unfolding coverage classify_by_coverage file_headers starts_with tag read_of read_in read_as
    match_of chunk_patch set_item cut_of shortens
x_is_tagged = here

one_patch :
    sent_file_patches is_decimal digest diff (coverage is_decimal digest diff none [] budget)
    ≡ some ((codes "api/x.py", first_patch) ∷ [])
unfolding sent_file_patches coverage file_headers starts_with patches_under checked_patches
    patches_from chunk_patch set_item drifts get_item hashes_of split_hunks hash_hunk
one_patch = refl

classify_by_coverage-IsReadWhole_example :
    In (finding (codes "x.py")) findings × IsReadWhole is_decimal digest diff budget (codes "x.py")
classify_by_coverage-IsReadWhole_example =
    classify_by_coverage-IsReadWhole is_decimal digest diff none [] budget same_order findings
      (finding (codes "x.py")) x_is_tagged refl

sent_file_patches-agrees_example :
    let cov = coverage is_decimal digest diff none [] budget in
    (patches : List (Text × Text)) × (sent_file_patches is_decimal digest diff cov ≡ some patches)
    × (cov.hunks ≡ some (hashed digest patches))
    × Distinct (map (λ e. e.0) patches)
sent_file_patches-agrees_example = sent_file_patches-agrees is_decimal digest diff none [] budget
