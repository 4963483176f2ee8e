-- ===== src/Reader.antt =====
-- api/doug/reader.py: what one read of a diff saw, and what it says of the findings.
mod Headers
pub mod Geometry
pub mod Indexed
pub mod Classified
pub mod Patches
mod Tests
use doug.Prelude.{
  ℕ, suc, ◌+◌, ◌-◌, Bool, true, false, ◌&&◌, ◌||◌, not, Option, none, some, List, [], ◌∷◌, ◌++◌,
  map, ltb, leb, ◌==◌, nat_eq, list_eq, option_eq, if◌then◌else◌, length, take, drop, any, keep,
  find?, Text, codes, starts_with,
}
use mathlib.Core.List.{reverse}
use doug.Convergence.Hunks.{split_hunks, hash_hunk}
use doug.Reader.Headers.{Match, file_headers}

-- A `dict` with file names for keys, in the order of the first writes.
abbrev pub Index : Type 0
Index = List (Text × List Text)

module _ {ℓ} {V : Type ℓ} where
  pub set_item : Text → V → List (Text × V) → List (Text × V)
  set_item key value [] = (key, value) ∷ []
  set_item key value ((k, v) ∷ rest) =
      let later = set_item key value rest in if k == key then (k, value) ∷ rest else (k, v) ∷ later

  pub get_item : Text → List (Text × V) → Option V
  get_item key [] = none
  get_item key ((k, v) ∷ rest) = let later = get_item key rest in if k == key then some v else later

  abbrev pub has_item : Text → List (Text × V) → Bool
  has_item key dict = any (λ e. e.0 == key) dict

pub record Coverage : Type 0 where
  pub diff_chars : ℕ
  pub sent_chars : ℕ
  pub files_sent : ℕ
  pub files_unseen : List Text
  pub file_cut : Option Text
  pub changed_files : Option ℕ
  pub files_dropped : List Text
  pub hunks : Option Index

pub data Extent : Type 0 where
  whole : Extent
  part : Extent
  unread : Extent

pub data FindingEvidence : Type 0 where
  in_diff : FindingEvidence
  head_cited : FindingEvidence
  partial_read : FindingEvidence
  outside_read : FindingEvidence

-- A finding without its citations, which none of these functions reads.
pub record ReaderFinding : Type 0 where
  pub category_slug : Text
  pub description : Text
  pub file : Text
  pub severity : Text
  pub evidence : FindingEvidence

abbrev pub diff_budget : ℕ
diff_budget = 100000

abbrev pub or_default : Option ℕ → ℕ
or_default none = diff_budget
or_default (some budget) = budget

-- A budget is not negative here.
abbrev pub sent_slice : Text → Option ℕ → Text
sent_slice diff budget = take (or_default budget) diff

-- The later matches are those after position `pos`.
abbrev pub chunk_content_end : List Match → ℕ → ℕ
chunk_content_end [] diff_len = diff_len
chunk_content_end (next ∷ later) diff_len = next.start - 2

-- `text[start:end]`.
abbrev pub slice : ℕ → ℕ → Text → Text
slice start end text = drop start (take end text)

pub chunk_patch : Text → Match → List Match → ℕ → Option Text
chunk_patch diff m later sent_len =
    let content_end = chunk_content_end later (length diff) in
    if ltb sent_len content_end
    then none
    else some (if leb (suc m.end) content_end then slice (suc m.end) content_end diff else [])

abbrev pub starts_after : List Match → ℕ → ℕ
starts_after [] diff_len = diff_len
starts_after (next ∷ later) diff_len = next.start

abbrev pub last_name : List Match → Option Text
last_name [] = none
last_name (m ∷ []) = some m.name
last_name (m ∷ n ∷ ms) = last_name (n ∷ ms)

-- `next_start - len(sent) > len(CHUNK_SEPARATOR)`, with the subtraction moved across.
pub cut_of : List Match → List Match → ℕ → ℕ → Option Text
cut_of matches seen sent_len diff_len =
    if ltb sent_len diff_len
      && ltb (sent_len + 2) (starts_after (drop (length seen) matches) diff_len)
    then last_name seen
    else none

abbrev pub is_empty : List Text → Bool
is_empty [] = true
is_empty (f ∷ fs) = false

-- The files that may be named, `known`, without an order.
abbrev pub cut_names : Option Text → List Text
cut_names none = []
cut_names (some []) = []
cut_names (some (c ∷ name)) = (c ∷ name) ∷ []

abbrev pub known : Coverage → Index → List Text
known cov index =
    map (λ e. e.0) index ++ cov.files_unseen ++ cov.files_dropped ++ cut_names cov.file_cut

-- `text.endswith(suffix)`.
abbrev pub has_suffix : Text → Text → Bool
has_suffix suffix text = starts_with (reverse suffix) (reverse text)

-- The one path is the other, without its first directories.
pub shortens : Text → Text → Bool
shortens path k = has_suffix (codes "/" ++ path) k || has_suffix (codes "/" ++ k) path

pub read_as : Coverage → Index → Option Text → Extent
read_as cov index none = unread
read_as cov index (some match_) =
    if has_item match_ index then whole else if some match_ == cov.file_cut then part else unread

module _ (set_order : List Text → List Text) where
  -- The order in which `next` meets the members of a set is the parameter.
  pub match_of : List Text → Text → Option Text
  match_of names path =
      if any (λ k. k == path) names then some path else find? (shortens path) (set_order names)

  pub read_in : Coverage → Text → Option Index → Option Extent
  read_in cov path none = none
  read_in cov path (some index) = some (read_as cov index (match_of (known cov index) path))

  pub read_of : Coverage → Text → Option Extent
  read_of cov path = read_in cov path cov.hunks

  abbrev pub tagged : ReaderFinding → Option Extent → ReaderFinding
  tagged f none = f
  tagged f (some whole) = f
  tagged f (some part) = record f { evidence = partial_read }
  tagged f (some unread) = record f { evidence = outside_read }

  pub tag : Coverage → FindingEvidence → ReaderFinding → ReaderFinding
  tag cov in_diff f = tagged f (read_of cov f.file)
  tag cov head_cited f = f
  tag cov partial_read f = f
  tag cov outside_read f = f

  pub classify_by_coverage : List ReaderFinding → Coverage → List ReaderFinding
  classify_by_coverage findings cov = map (λ f. tag cov f.evidence f) findings

abbrev pub keep_patch : Text → Option Text → List (Text × Text) → List (Text × Text)
keep_patch name none patches = patches
keep_patch name (some patch) patches = set_item name patch patches

pub patches_from : Text → ℕ → Index → List (Text × Text) → List Match → List (Text × Text)
patches_from diff sent_len index patches [] = patches
patches_from diff sent_len index patches (m ∷ later) =
    let kept = keep_patch m.name (chunk_patch diff m later sent_len) patches in
    patches_from diff sent_len index (if has_item m.name index then kept else patches) later

abbrev pub same_names : List (Text × Text) → Index → Bool
same_names patches index =
    not (any (λ e. not (has_item e.0 index)) patches)
    && not (any (λ e. not (has_item e.0 patches)) index)

module _ (sha256 : Text → Text) where
  pub hashes_of : Text → List Text
  hashes_of patch = map (hash_hunk sha256) (split_hunks patch)

  abbrev pub add_chunk : Text → Option Text → Index → Index
  add_chunk name none index = index
  add_chunk name (some patch) index = set_item name (hashes_of patch) index

  pub index_chunks : Text → ℕ → Index → List Match → Index
  index_chunks diff sent_len index [] = index
  index_chunks diff sent_len index (m ∷ later) =
      index_chunks diff sent_len (add_chunk m.name (chunk_patch diff m later sent_len) index) later

  pub drifts : Index → Text × Text → Bool
  drifts index e = not (some (hashes_of e.1) == get_item e.0 index)

  pub checked_patches : Index → List (Text × Text) → Option (List (Text × Text))
  checked_patches index patches =
      if any (drifts index) patches
      then none
      else if same_names patches index
      then some patches
      else none

module _ (is_decimal : ℕ → Bool) (sha256 : Text → Text) where
  abbrev pub is_seen : ℕ → Match → Bool
  is_seen sent_len m = leb m.end sent_len

  pub coverage : Text → Option ℕ → List Text → Option ℕ → Coverage
  unfolding index_chunks
  coverage diff changed_files files_dropped budget =
      let sent_len = length (sent_slice diff budget) in
      let matches = file_headers is_decimal diff in
      let all_files = map (λ m. m.name) matches in
      let seen = keep (is_seen sent_len) matches in
      let names = map (λ m. m.name) seen in
      record {
        diff_chars = length diff;
        sent_chars = sent_len;
        files_sent = length names;
        files_unseen = keep (λ f. not (any (λ n. n == f) names)) all_files;
        file_cut = cut_of matches seen sent_len (length diff);
        changed_files = changed_files;
        files_dropped = files_dropped;
        hunks = some (index_chunks sha256 diff sent_len [] matches);
      }

  pub patches_under : Text → ℕ → Option Index → Option (List (Text × Text))
  patches_under diff sent_len none = none
  patches_under diff sent_len (some index) =
      checked_patches sha256 index
        (patches_from diff sent_len index [] (file_headers is_decimal diff))

  pub sent_file_patches : Text → Coverage → Option (List (Text × Text))
  sent_file_patches diff cov = patches_under diff cov.sent_chars cov.hunks

  -- `assert cov.hunks is not None` holds, since `coverage` always computes an index.
  abbrev pub hunk_index : Text → Option ℕ → Option Index
  hunk_index diff budget = (coverage diff none [] budget).hunks

-- `Coverage.complete`.
abbrev pub is_complete : Coverage → Bool
is_complete cov = leb cov.diff_chars cov.sent_chars && is_empty cov.files_dropped
