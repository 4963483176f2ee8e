-- ===== src/Keyformat/Tests.antt =====
-- Runs of the token format, and its theorems at concrete tokens.
use doug.Prelude.{ℕ, ◌≡◌, refl, some, none, List, [], ◌∷◌, arith, codes, Text}
use doug.Keyformat.{crc32, b62, Parsed, generate, parse}
use doug.Keyformat.RoundTrip.{IsToken, parse-generate, parse_sound}

crc32_check : crc32 (codes "123456789") ≡ 0xCBF43926
unfolding crc32
crc32_check = refl

b62_check : b62 3844 6 ≡ codes "000100"
unfolding b62
b62_check = refl

abbrev lookup_draws : List ℕ
lookup_draws = 1 ∷ 2 ∷ 3 ∷ 4 ∷ 5 ∷ 6 ∷ 7 ∷ 8 ∷ []

abbrev secret_draws : List ℕ
secret_draws =
    0 ∷ 5 ∷ 10 ∷ 15 ∷ 20 ∷ 25 ∷ 30 ∷ 35 ∷ 40 ∷ 45 ∷ 50 ∷ 55 ∷ 60 ∷ 3 ∷ 8 ∷ 13 ∷ 18 ∷ 23 ∷ 28 ∷ 33
    ∷ 38 ∷ 43 ∷ 48 ∷ 53 ∷ 58 ∷ 1 ∷ 6 ∷ 11 ∷ 16 ∷ 21 ∷ 26 ∷ 31 ∷ 36 ∷ 41 ∷ 46 ∷ 51 ∷ 56 ∷ 61 ∷ 4 ∷ 9
    ∷ 14 ∷ 19 ∷ 24 ∷ []

parse-generate_example :
    let m = generate lookup_draws secret_draws in
    parse m.token ≡ some (record { lookup = m.lookup; secret = m.secret })
parse-generate_example =
    parse-generate lookup_draws secret_draws refl refl (omega arith) (omega arith)

-- A token with its first secret character changed fails its checksum.
abbrev token_parts : Parsed
token_parts = record {
  lookup = codes "12345678";
  secret = codes "05AFKPUZejoty38DINSXchmrw16BGLQVafkpuz49EJO";
}

abbrev token : Text
token = (generate lookup_draws secret_draws).token

parse_sound_example : IsToken token token_parts
unfolding parse generate
parse_sound_example = parse_sound token token_parts refl

junk : parse (codes "doug_live_short_x") ≡ none
unfolding parse
junk = refl

reserved : parse (codes "doug_test_12345678_x") ≡ none
unfolding parse
reserved = refl
