-- ===== src/Convergence/Tests.antt =====
-- Runs of the comparison of two reviews, and its theorems at concrete findings.
use doug.Prelude.{
  ◌+◌, min, ◌≡◌, refl, none, some, List, [], ◌∷◌, ◌++◌, map, String, Text, codes, starts_with, All,
  count_if, if◌then◌else◌, leb, ◌&&◌, ◌==◌, nat_eq,
}
use doug.Convergence.Rows.{
  Finding, Read, prior, later, persisted, new, unknown, matched, excluded, Classification,
}
use doug.Convergence.Patterns.{Unicode, slugify, from_rule}
use doug.Convergence.Notices.{notice_segments}
use doug.Convergence.{Identity, classify, has_identity}
use doug.Convergence.Coverage.{EntriesFor, classify-EntriesFor}
use doug.Convergence.Budget.{rereported, matched_at, new_at}
use doug.Convergence.Pairs.{classify-pairs}
use doug.Convergence.Evidence.{IsBacked, classify-IsBacked}
use doug.Convergence.Headline.{silent, denominator, denominator-silent}

-- The ASCII part of the tables.
abbrev ascii : Unicode
ascii = record {
  is_space = λ c. c == 32;
  lower = map (λ c. if leb 65 c && leb c 90 then c + 32 else c);
}

one_spelling : slugify ascii (codes " Missing_Import ") ≡ codes "missing-import"
unfolding slugify
one_spelling = refl

synonym : from_rule ascii (codes "reader:Unhandled Exception") ≡ some (codes "error-handling-gap")
unfolding from_rule starts_with
synonym = refl

notice :
    notice_segments (codes "Settled — a.py: reader:missing-import (os); b.py: typo; c.py: slug (x)")
    ≡ (codes "a.py", codes "missing-import") ∷ (codes "c.py", codes "slug") ∷ []
unfolding notice_segments starts_with
notice = refl

abbrev finding : String → String → Finding
finding rule file = record {
  rule = codes rule;
  label = none;
  file = some (codes file);
  hunks = none;
}

abbrev read : List (Text × List Text) → Read
read hunks = record {
  files_unseen = none;
  files_dropped = none;
  file_cut = none;
  hunks = some hunks;
}

-- The first finding is reported again; the second is silent on a file that did not move, the third
-- on one that did.
abbrev old_findings : List Finding
old_findings =
    finding "reader:race" "a.py"
    ∷ finding "reader:leak" "b.py"
    ∷ finding "reader:leak" "c.py"
    ∷ finding "large-diff" "a.py"
    ∷ []

abbrev new_findings : List Finding
new_findings = finding "reader:race" "a.py" ∷ finding "reader:typo" "b.py" ∷ []

abbrev first_read : Read
first_read = read (
    (codes "a.py", codes "h1" ∷ [])
    ∷ (codes "b.py", codes "h2" ∷ [])
    ∷ (codes "c.py", codes "h3" ∷ [])
    ∷ [])

abbrev second_read : Read
second_read = read (
    (codes "a.py", codes "h1" ∷ [])
    ∷ (codes "b.py", codes "h2" ∷ [])
    ∷ (codes "c.py", codes "h4" ∷ [])
    ∷ [])

abbrev entries : List Classification
entries = classify ascii old_findings new_findings new_findings (some second_read) (some first_read)

states :
    map (λ e. e.state) entries ≡ persisted ∷ persisted ∷ unknown ∷ excluded ∷ matched ∷ new ∷ []
unfolding classify from_rule starts_with
states = refl

counts : silent entries ∷ denominator entries ∷ [] ≡ 1 ∷ 1 ∷ []
unfolding classify silent denominator from_rule starts_with
counts = refl

abbrev race : Identity
race = (codes "race", codes "a.py")

classify-EntriesFor_example :
    (ps : List Classification) × (ls : List Classification) × (entries ≡ ps ++ ls)
    × EntriesFor prior old_findings ps
    × EntriesFor later new_findings ls
classify-EntriesFor_example =
    classify-EntriesFor ascii old_findings new_findings new_findings (some second_read)
      (some first_read)

classify-pairs_example :
    let p = count_if (has_identity ascii race) old_findings in
    let l = count_if (has_identity ascii race) new_findings in
    (count_if (rereported ascii race) entries ≡ min p l)
    × (count_if (matched_at ascii race) entries ≡ min p l)
    × (count_if (new_at ascii race) entries + min p l ≡ l)
classify-pairs_example =
    classify-pairs ascii old_findings new_findings new_findings (some second_read) (some first_read)
      race

classify-IsBacked_example :
    All (IsBacked ascii new_findings (some second_read) (some first_read)) entries
classify-IsBacked_example =
    classify-IsBacked ascii old_findings new_findings new_findings (some second_read)
      (some first_read)

denominator-silent_example : denominator entries ≡ silent entries
denominator-silent_example =
    denominator-silent ascii old_findings new_findings new_findings (some second_read)
      (some first_read)
