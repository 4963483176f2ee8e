-- ===== src/Rulings/Checks.antt =====
-- rulings.py: what a row of the block must be (`_row`, `_value_error`).
use doug.Prelude.{
  ℕ, suc, Bool, true, false, ◌&&◌, ◌||◌, not, Option, none, some, List, [], ◌∷◌, map, ltb, leb,
  ◌==◌, nat_eq, list_eq, if◌then◌else◌, length, any, keep, find?, sort_by, Text, codes, partition,
}
use doug.Convergence.Patterns.{strip}
use doug.Rulings.Rows.{
  Ruling, Ruled, real, disproved, adjacent, Why, missing_keys, unknown_keys, bad_read, bad_rule,
  bad_verdict, bad_changed, empty_field, long_field, Field, text, boolean,
}

abbrev pub max_reason_chars : ℕ
max_reason_chars = 600

abbrev pub max_file_chars : ℕ
max_file_chars = 400

abbrev pub max_ref_chars : ℕ
max_ref_chars = 200

-- The required keys, in the order of their names.
abbrev pub required : List Text
required =
    codes "changed"
    ∷ codes "file"
    ∷ codes "read"
    ∷ codes "reason"
    ∷ codes "rule"
    ∷ codes "verdict"
    ∷ []

abbrev pub optional_keys : List Text
optional_keys = codes "ref" ∷ []

abbrev pub is_hex : ℕ → Bool
is_hex c = leb 48 c && leb c 57 || leb 97 c && leb c 102

-- `^[0-9a-f]{7,40}$`, whose `$` also matches before a line feed at the end.
unfoldable pub hex_run : Text → ℕ × Text
hex_run [] = (0, [])
hex_run (c ∷ cs) = let (n, rest) = hex_run cs in if is_hex c then (suc n, rest) else (0, c ∷ cs)

abbrev pub at_end : Text → Bool
at_end s = s == [] || s == 10 ∷ []

unfoldable pub read_shape : Text → Bool
unfolding hex_run
read_shape s = let (n, rest) = hex_run s in leb 7 n && leb n 40 && at_end rest

abbrev pub is_kebab_char : ℕ → Bool
is_kebab_char c = leb 97 c && leb c 122 || leb 48 c && leb c 57

-- `[a-z0-9]+(-[a-z0-9]+)*`; the flag says that a word's character stands before.
unfoldable pub is_kebab : Bool → Text → Bool
is_kebab in_word [] = in_word
is_kebab in_word (c ∷ cs) =
    let word = is_kebab true cs in
    let gap = is_kebab false cs in if is_kebab_char c then word else c == 45 && in_word && gap

-- `findings_log.valid_rule`.
unfoldable pub valid_rule : Text → Bool
unfolding is_kebab partition
valid_rule rule =
    let parts = partition 58 rule in
    parts.found && is_kebab false parts.head && is_kebab false parts.tail

abbrev pub value_of : Option (Text × Field) → Option Field
value_of none = none
value_of (some (k, v)) = some v

-- `obj.get(key)`.
abbrev pub get : Text → List (Text × Field) → Option Field
get key obj = value_of (find? (λ e. e.0 == key) obj)

abbrev pub has : Text → List Text → Bool
has key keys = any (λ k. k == key) keys

abbrev pub has_key : List (Text × Field) → Text → Bool
has_key obj key = any (λ e. e.0 == key) obj

unfoldable pub text_before : Text → Text → Bool
text_before [] t = true
text_before (c ∷ s) [] = false
text_before (c ∷ s) (d ∷ t) = let rest = text_before s t in ltb c d || c == d && rest

-- A check that a field passes, or why not.
pub data Checked {ℓ} (A : Type ℓ) : Type ℓ where
  fine : A → Checked A
  wrong : Why → Checked A

infixl 5 ◌>>=◌ ◌>>◌
abbrev pub ◌>>=◌ {ℓ κ} : {A : Type ℓ} {B : Type κ} → Checked A → (A → Checked B) → Checked B
(fine a) >>= f = f a
(wrong w) >>= f = wrong w

abbrev pub ◌>>◌ {ℓ} : {B : Type ℓ} → Checked (Unit {0}) → Checked B → Checked B
m >> k = m >>= λ _. k

abbrev pub guard : Bool → Why → Checked (Unit {0})
guard true w = fine tt
guard false w = wrong w

-- `_text_error`.
abbrev pub text_field : (ℕ → Bool) → Text → ℕ → Option Field → Checked Text
text_field is_space name limit (some (text s)) = do
  guard (not (strip is_space s == [])) (empty_field name)
  guard (leb (length s) limit) (long_field name limit)
  fine s
text_field is_space name limit _ = wrong (empty_field name)

abbrev pub read_field : Option Field → Checked Text
read_field (some (text s)) = do guard (read_shape s) bad_read; fine s
read_field _ = wrong bad_read

abbrev pub rule_field : Option Field → Checked Text
rule_field (some (text s)) = do guard (valid_rule s) bad_rule; fine s
rule_field _ = wrong bad_rule

abbrev pub ruled_of : Text → Checked Ruled
ruled_of s =
    if s == codes "real"
    then fine real
    else if s == codes "disproved"
    then fine disproved
    else if s == codes "adjacent"
    then fine adjacent
    else wrong bad_verdict

abbrev pub verdict_field : Option Field → Checked Ruled
verdict_field (some (text s)) = ruled_of s
verdict_field _ = wrong bad_verdict

abbrev pub changed_field : Option Field → Checked Bool
changed_field (some (boolean b)) = fine b
changed_field _ = wrong bad_changed

abbrev pub ref_field : (ℕ → Bool) → Option Field → Checked (Option Text)
ref_field is_space none = fine none
ref_field is_space (some f) = do
  s ← text_field is_space (codes "ref") max_ref_chars (some f)
  fine (some (strip is_space s))

-- `_value_error` and the row that it lets through.
unfoldable pub checked_row : (ℕ → Bool) → ℕ → List (Text × Field) → Checked Ruling
unfolding read_shape valid_rule strip
checked_row is_space row obj = do
  read ← read_field (get (codes "read") obj)
  rule ← rule_field (get (codes "rule") obj)
  file ← text_field is_space (codes "file") max_file_chars (get (codes "file") obj)
  verdict ← verdict_field (get (codes "verdict") obj)
  changed ← changed_field (get (codes "changed") obj)
  reason ← text_field is_space (codes "reason") max_reason_chars (get (codes "reason") obj)
  ref ← ref_field is_space (get (codes "ref") obj)
  fine (record {
    row = row;
    read = read;
    rule = rule;
    file = strip is_space file;
    verdict = verdict;
    changed = changed;
    reason = strip is_space reason;
    ref = ref;
  })

-- `_row`.
unfoldable pub row_of : (ℕ → Bool) → ℕ → List (Text × Field) → Checked Ruling
unfolding checked_row text_before
row_of is_space row obj = do
  let missing = keep (λ k. not (has_key obj k)) required
  let unknown = keep (λ k. not (has k required || has k optional_keys)) (map (λ e. e.0) obj)
  guard (missing == []) (missing_keys missing)
  guard (unknown == []) (unknown_keys (sort_by text_before unknown))
  checked_row is_space row obj
