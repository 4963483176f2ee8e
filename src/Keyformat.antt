-- ===== src/Keyformat.antt =====
-- api/doug/keyformat.py: the `doug_live_` token format.
--
-- Texts are code points. The draws of `secrets.choice` come in as indices into the alphabet, and
-- `zlib.crc32` is the reflected CRC-32 of the standard library, bit by bit.
pub mod RoundTrip
mod Tests
use doug.Prelude.{
  ℕ, zero, suc, ◌+◌, ◌-◌, ◌/◌, ◌%◌, ◌^◌, ◌<◌, ◌≡◌, Bool, true, false, not, ◌||◌, Option, none, some,
  List, [], ◌∷◌, ◌++◌, map, length, take, drop, any, ◌==◌, nat_eq, list_eq, if◌then◌else◌, Text,
  codes, starts_with, partition, arith,
}
use Prim.Native.Nat.{bit_xor}
use mathlib.Core.List.{reverse}

abbrev pub prefix : Text
prefix = codes "doug_live_"

abbrev pub test_prefix : Text
test_prefix = codes "doug_test_"

abbrev pub alphabet : Text
alphabet = codes "0123456789ABCDEFGHIJKLMNOPQRSTUVWXYZabcdefghijklmnopqrstuvwxyz"

abbrev pub lookup_len : ℕ
lookup_len = 8

abbrev pub secret_len : ℕ
secret_len = 43

abbrev pub crc_len : ℕ
crc_len = 6

abbrev pub underscore : ℕ
underscore = b'_'

pub record Minted : Type 0 where
  pub token : Text
  pub lookup : Text
  pub secret : Text
  pub last4 : Text

pub record Parsed : Type 0 where
  pub lookup : Text
  pub secret : Text

-- `_ALPHABET[i]`, for an index in range.
pub letter_in : Text → ℕ → ℕ
letter_in [] i = 0
letter_in (c ∷ cs) zero = c
letter_in (c ∷ cs) (suc i) = letter_in cs i

pub letter : ℕ → ℕ
unfolding letter_in
letter = letter_in alphabet

pub in_alphabet : ℕ → Bool
in_alphabet c = any (λ a. a == c) alphabet

-- The loop of `_b62`, lowest digit first; `fuel` is at least `n`.
pub b62_digits : ℕ → ℕ → Text
unfolding letter
b62_digits zero n = []
b62_digits (suc fuel) n = elim (n == 0) [
  | true ↦ []
  | false ↦ letter (n % 62) ∷ b62_digits fuel (n / 62)
]

abbrev pub or_zero : Text → Text
or_zero [] = b'0' ∷ []
or_zero (c ∷ cs) = c ∷ cs

abbrev pub replicate : ℕ → ℕ → Text
replicate zero c = []
replicate (suc n) c = c ∷ replicate n c

-- `text.rjust(width, "0")`.
abbrev pub rjust : ℕ → Text → Text
rjust width s = replicate (width - length s) b'0' ++ s

pub b62 : ℕ → ℕ → Text
unfolding b62_digits
b62 n width = rjust width (or_zero (reverse (b62_digits n n)))

abbrev pub u32 : ℕ → ℕ
u32 n = n % 2 ^ 32

pub crc_bit : ℕ → ℕ
crc_bit c = if c % 2 == 1 then u32 (bit_xor (c / 2) 0xEDB88320) else c / 2

pub crc_bits : ℕ → ℕ → ℕ
unfolding crc_bit
crc_bits zero c = c
crc_bits (suc n) c = crc_bits n (crc_bit c)

pub crc_bytes : ℕ → List ℕ → ℕ
unfolding crc_bits
crc_bytes c [] = c
crc_bytes c (b ∷ bs) = crc_bytes (crc_bits 8 (u32 (bit_xor c b))) bs

pub crc32 : List ℕ → ℕ
unfolding crc_bytes
crc32 bytes = u32 (bit_xor (crc_bytes 0xFFFFFFFF bytes) 0xFFFFFFFF)

-- The text is ASCII wherever its checksum is asked for, so its bytes are its code points.
pub crc : Text → Text → Text
unfolding b62 crc32
crc lookup secret = b62 (crc32 (lookup ++ secret)) crc_len

-- `_rand`, given its draws.
pub rand : List ℕ → Text
unfolding letter
rand draws = map letter draws

pub last_four : Text → Text
last_four s = drop (length s - 4) s

pub generate : List ℕ → List ℕ → Minted
unfolding rand crc last_four
generate lookup_draws secret_draws =
    let lookup = rand lookup_draws in
    let secret = rand secret_draws in
    record {
      token = prefix ++ lookup ++ underscore ∷ (secret ++ crc lookup secret);
      lookup = lookup;
      secret = secret;
      last4 = last_four secret;
    }

-- The checks of `parse` once the token is split at its first underscore.
pub parse_parts : Text → Text → Option Parsed
unfolding in_alphabet crc
parse_parts lookup tail =
    let secret = take secret_len tail in
    let checksum = drop secret_len tail in
    if any (λ c. not (in_alphabet c)) (lookup ++ secret ++ checksum)
    then none
    else if checksum == crc lookup secret
    then some (record { lookup = lookup; secret = secret })
    else none

pub parse : Text → Option Parsed
unfolding parse_parts starts_with partition
parse token =
    if starts_with test_prefix token
    then none
    else if not (starts_with prefix token)
    then none
    else let p = partition underscore (drop (length prefix) token) in
      if not p.found
        || not (length p.head == lookup_len)
        || not (length p.tail == secret_len + crc_len)
      then none
      else parse_parts p.head p.tail
