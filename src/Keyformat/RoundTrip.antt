-- ===== src/Keyformat/RoundTrip.antt =====
-- keyformat.py: `parse` accepts what `generate` makes, and nothing but such texts.
use native.Mathlib.Nat.{pow-suc}
use mathlib.Core.List.{reverse}
use mathlib.Core.Path.{subst}
use doug.Prelude.{
  ℕ, zero, suc, ◌+◌, ◌-◌, ◌/◌, ◌%◌, ◌^◌, ◌≤◌, ◌<◌, ◌≡◌, refl, sym, ap, ◌∙◌, true, false, not, ◌||◌,
  some, List, [], ◌∷◌, ◌++◌, length, length-append, length-reverse, take, drop, take-append-drop,
  take-append_exact, drop-append_exact, length-map, any, any_none, All, All-append, All-map,
  All-map_at, All-reverse, ◌==◌, nat_eq, nat_beq, nat_beq_iff, passed_guard, passed_test,
  not-eq-false, all_three, length-take_exact, list_eq, list_beq, list_beq_iff, list_beq_refl, Text,
  starts_with, append_of_starts_with, partition, partition-append, append_of_partition, Bool-cases,
  inl, inr, all_below, all_below-lt, arith,
}
use doug.Keyformat.{
  prefix, test_prefix, lookup_len, secret_len, crc_len, underscore, Parsed, letter, in_alphabet,
  b62_digits, or_zero, rjust, replicate, b62, crc32, crc, rand, generate, parse_parts, parse,
}

abbrev pub IsAlphabetic : Text → Type 0
IsAlphabetic s = All (λ c. in_alphabet c ≡ true) s

letter_table : all_below 62 (λ i. in_alphabet (letter i)) ≡ true
unfolding all_below in_alphabet letter
letter_table = refl

letter-in_alphabet : (i : ℕ) → i < 62 → in_alphabet (letter i) ≡ true
letter-in_alphabet i h = all_below-lt 62 (λ j. in_alphabet (letter j)) i letter_table h

no_underscore : (c : ℕ) → in_alphabet c ≡ true → nat_beq c underscore ≡ false
unfolding in_alphabet
no_underscore c h = ground arith

b62_digits-IsAlphabetic : (fuel n : ℕ) → IsAlphabetic (b62_digits fuel n)
unfolding b62_digits
b62_digits-IsAlphabetic zero n = tt
b62_digits-IsAlphabetic (suc fuel) n = elim (Bool-cases (n == 0)) [
  | inl e ↦ rw (e, b62_digits) tt
  | inr e ↦
      rw (e, b62_digits)
        (letter-in_alphabet (n % 62) (omega arith), b62_digits-IsAlphabetic fuel (n / 62))
]

length-b62_digits-le : (k fuel n : ℕ) → n < 62 ^ k → length (b62_digits fuel n) ≤ k
unfolding b62_digits
length-b62_digits-le k zero n h = omega arith
length-b62_digits-le zero (suc fuel) n h = let e : n ≡ 0 = omega arith in rw e (omega arith)
length-b62_digits-le (suc k) (suc fuel) n h = elim (Bool-cases (n == 0)) [
  | inl e ↦ rw (e, b62_digits) (omega arith)
  | inr e ↦
      rw (e, b62_digits)
        (omega (arith, length-b62_digits-le k fuel (n / 62) (omega (arith, pow-suc 62 k))))
]

replicate-IsAlphabetic : (n : ℕ) → IsAlphabetic (replicate n b'0')
unfolding in_alphabet
replicate-IsAlphabetic zero = tt
replicate-IsAlphabetic (suc n) = (refl, replicate-IsAlphabetic n)

length-replicate : (n c : ℕ) → length (replicate n c) ≡ n
length-replicate zero c = refl
length-replicate (suc n) c = ap suc (length-replicate n c)

length-rjust : (width : ℕ) (s : Text) → length s ≤ width → length (rjust width s) ≡ width
length-rjust width s h = omega (
  arith,
  length-append (replicate (width - length s) b'0') s,
  length-replicate (width - length s) b'0',
)

or_zero-IsAlphabetic : (s : Text) → IsAlphabetic s → IsAlphabetic (or_zero s)
unfolding in_alphabet
or_zero-IsAlphabetic [] h = (refl, tt)
or_zero-IsAlphabetic (c ∷ s) h = h

length-or_zero-le : (k : ℕ) (s : Text) → length s ≤ suc k → length (or_zero s) ≤ suc k
length-or_zero-le k [] h = omega arith
length-or_zero-le k (c ∷ s) h = h

b62-IsAlphabetic : (n width : ℕ) → IsAlphabetic (b62 n width)
unfolding b62
b62-IsAlphabetic n width =
    All-append _ (replicate _ b'0') _ (replicate-IsAlphabetic _)
      (or_zero-IsAlphabetic _ (All-reverse _ (b62_digits n n) (b62_digits-IsAlphabetic n n)))

-- A number below 62^width has exactly `width` characters.
pub length-b62 : (n k : ℕ) → n < 62 ^ suc k → length (b62 n (suc k)) ≡ suc k
unfolding b62
length-b62 n k h = length-rjust (suc k) _ (
    length-or_zero-le k (reverse (b62_digits n n))
      (omega (arith, length-reverse (b62_digits n n), length-b62_digits-le (suc k) n n h)))

crc32-lt : (bytes : List ℕ) → crc32 bytes < 62 ^ 6
unfolding crc32
crc32-lt bytes = omega arith

length-crc : (lookup secret : Text) → length (crc lookup secret) ≡ crc_len
unfolding crc
length-crc lookup secret = length-b62 (crc32 (lookup ++ secret)) 5 (crc32-lt (lookup ++ secret))

crc-IsAlphabetic : (lookup secret : Text) → IsAlphabetic (crc lookup secret)
unfolding crc
crc-IsAlphabetic lookup secret = b62-IsAlphabetic (crc32 (lookup ++ secret)) 6

rand-IsAlphabetic : (draws : List ℕ) → All (λ i. i < 62) draws → IsAlphabetic (rand draws)
unfolding rand
rand-IsAlphabetic draws h = All-map _ letter draws (All-map_at letter-in_alphabet draws h)

length-rand : (draws : List ℕ) → length (rand draws) ≡ length draws
unfolding rand
length-rand draws = length-map letter draws

-- A lookup and a secret of the right shape, with their checksum, are accepted.
parse_parts-accepts :
    (lookup secret : Text)
    → IsAlphabetic lookup
    → IsAlphabetic secret
    → length secret ≡ secret_len
    → parse_parts lookup (secret ++ crc lookup secret)
      ≡ some (record { lookup = lookup; secret = secret })
unfolding parse_parts
parse_parts-accepts lookup secret a b n =
    let clean =
      any_none (λ c. not (in_alphabet c)) (lookup ++ secret ++ crc lookup secret)
        (All-map_at (λ c h. ap not h) _
          (All-append _ (lookup ++ secret) _ (All-append _ lookup secret a b)
            (crc-IsAlphabetic lookup secret))) in
    rw
      (
        take-append_exact secret (crc lookup secret) secret_len n,
        drop-append_exact secret (crc lookup secret) secret_len n,
      )
      (rw (clean, list_beq_refl (crc lookup secret)) refl)

parse-assembled :
    (lookup secret : Text)
    → IsAlphabetic lookup
    → IsAlphabetic secret
    → length lookup ≡ lookup_len
    → length secret ≡ secret_len
    → parse (prefix ++ lookup ++ underscore ∷ (secret ++ crc lookup secret))
      ≡ some (record { lookup = lookup; secret = secret })
unfolding parse starts_with
parse-assembled lookup secret a b n m =
    let tail_length : length (secret ++ crc lookup secret) ≡ secret_len + crc_len =
      omega (arith, length-append secret (crc lookup secret), length-crc lookup secret) in
    rw
      (partition-append underscore lookup (secret ++ crc lookup secret)
        (All-map_at no_underscore lookup a))
      (rw (n, tail_length) (parse_parts-accepts lookup secret a b m))

-- Every token that `generate` makes, whatever the draws, parses to its own lookup and secret.
pub parse-generate :
    (lookup_draws secret_draws : List ℕ)
    → length lookup_draws ≡ lookup_len
    → length secret_draws ≡ secret_len
    → All (λ i. i < 62) lookup_draws
    → All (λ i. i < 62) secret_draws
    → let m = generate lookup_draws secret_draws in
      parse m.token ≡ some (record { lookup = m.lookup; secret = m.secret })
unfolding generate
parse-generate ls ss n m h k =
    parse-assembled (rand ls) (rand ss) (rand-IsAlphabetic ls h) (rand-IsAlphabetic ss k)
      (length-rand ls ∙ n) (length-rand ss ∙ m)

parse_parts_sound :
    (lookup tail : Text) (p : Parsed)
    → parse_parts lookup tail ≡ some p
    → (p ≡ record { lookup = lookup; secret = take secret_len tail })
      × (drop secret_len tail ≡ crc lookup (take secret_len tail))
      × (any (λ c. not (in_alphabet c)) (lookup ++ take secret_len tail ++ drop secret_len tail)
          ≡ false)
unfolding parse_parts
parse_parts_sound lookup tail p h =
    let (clean, rest) =
      passed_guard
        (any (λ c. not (in_alphabet c)) (lookup ++ take secret_len tail ++ drop secret_len tail)) _
        h in
    let (checked, result) =
      passed_test (list_beq (drop secret_len tail) (crc lookup (take secret_len tail))) _ rest in
    (cc result, (list_beq_iff _ _).0 checked, clean)

-- The shape of a token that passes.
pub record IsToken (token : Text) (p : Parsed) : Type 0 where
  pub assembled : token ≡ prefix ++ p.lookup ++ underscore ∷ (p.secret ++ crc p.lookup p.secret)
  pub lookup_length : length p.lookup ≡ lookup_len
  pub secret_length : length p.secret ≡ secret_len
  pub alphabetic :
      any (λ c. not (in_alphabet c)) (p.lookup ++ p.secret ++ crc p.lookup p.secret) ≡ false

-- The tests that `parse` makes before it looks at the parts, read back.
parse_split :
    (token : Text) (p : Parsed)
    → parse token ≡ some p
    → let s = partition underscore (drop (length prefix) token) in
      (starts_with prefix token ≡ true)
      × (s.found ≡ true)
      × (length s.head ≡ lookup_len)
      × (length s.tail ≡ secret_len + crc_len)
      × (parse_parts s.head s.tail ≡ some p)
unfolding parse
parse_split token p h =
    let (not_test, h₁) = passed_guard (starts_with test_prefix token) _ h in
    let (live, h₂) = passed_guard (not (starts_with prefix token)) _ h₁ in
    let s = partition underscore (drop (length prefix) token) in
    let (shaped, h₃) =
      passed_guard
        (not s.found
          || not (length s.head == lookup_len)
          || not (length s.tail == secret_len + crc_len))
        _ h₂ in
    let (found, head_length, tail_length) = all_three s.found _ _ shaped in
    (
      not-eq-false (starts_with prefix token) live,
      found,
      (nat_beq_iff (length s.head) lookup_len).0 head_length,
      (nat_beq_iff (length s.tail) (secret_len + crc_len)).0 tail_length,
      h₃,
    )

-- A text that `parse` accepts is exactly the prefix, the lookup, an underscore, the secret and their
-- checksum, with 8 and 43 characters of the alphabet: no other text passes, and each passes only as
-- itself.
pub parse_sound : (token : Text) (p : Parsed) → parse token ≡ some p → IsToken token p
parse_sound token p h =
    let (live, found, head_length, tail_length, parts) = parse_split token p h in
    let s = partition underscore (drop (length prefix) token) in
    let (it, checksum, clean) = parse_parts_sound s.head s.tail p parts in
    subst (IsToken token) (sym it) (record {
      assembled =
          append_of_starts_with prefix token live
          ∙ ap (λ (t : Text). prefix ++ t)
              (append_of_partition underscore (drop (length prefix) token) found
                ∙ ap (λ (t : Text). s.head ++ underscore ∷ t)
                    (sym (take-append-drop secret_len s.tail)
                      ∙ ap (λ (t : Text). take secret_len s.tail ++ t) checksum));
      lookup_length = head_length;
      secret_length = length-take_exact secret_len 6 s.tail tail_length;
      alphabetic =
          subst
            (λ (t : Text).
              any (λ c. not (in_alphabet c)) (s.head ++ take secret_len s.tail ++ t) ≡ false)
            checksum clean;
    })
