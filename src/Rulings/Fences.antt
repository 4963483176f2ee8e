-- ===== src/Rulings/Fences.antt =====
-- rulings.py: `_blocks`, which finds the `doug-rulings` blocks of a pull request's description as
-- CommonMark fences are read.
use doug.Prelude.{
  ℕ, zero, suc, Bool, false, ◌&&◌, Option, none, some, List, [], ◌∷◌, ◌++◌, leb, ◌==◌, nat_eq,
  list_eq, if◌then◌else◌, any, all, Text, codes,
}
use doug.Convergence.Patterns.{Unicode, strip}

abbrev pub block_info : Text
block_info = codes "doug-rulings"

-- ` {0,3}`: at most `n` spaces are passed over.
pub skip_spaces : ℕ → Text → Text
skip_spaces zero s = s
skip_spaces (suc n) [] = []
skip_spaces (suc n) (c ∷ cs) = let rest = skip_spaces n cs in if c == 32 then rest else c ∷ cs

-- How often a text begins with a character, and what follows.
abbrev pub one_more : ℕ × Text → ℕ × Text
one_more (n, rest) = (suc n, rest)

pub run_of : ℕ → Text → ℕ × Text
run_of c [] = (0, [])
run_of c (d ∷ ds) = let rest = run_of c ds in if d == c then one_more rest else (0, d ∷ ds)

pub record Fence : Type 0 where
  pub mark : ℕ
  pub size : ℕ
  pub info : Text

abbrev pub backtick : ℕ
backtick = 96

abbrev pub tilde : ℕ
tilde = 126

-- `_FENCE_RE` for one of its two characters, after the spaces.
abbrev pub fence_by : ℕ → ℕ × Text → Option Fence
fence_by c (n, info) = if leb 3 n then some (record { mark = c; size = n; info = info }) else none

abbrev pub either_fence : Option Fence → Option Fence → Option Fence
either_fence none f = f
either_fence (some e) f = some e

pub fence_of : Text → Option Fence
unfolding skip_spaces run_of
fence_of line =
    let s = skip_spaces 3 line in
    either_fence (fence_by backtick (run_of backtick s)) (fence_by tilde (run_of tilde s))

-- The result of `_blocks`.
pub record Found : Type 0 where
  pub blocks : List (List Text)
  pub unclosed : ℕ
  pub swallowed : ℕ

abbrev pub nothing_found : Found
nothing_found = record { blocks = []; unclosed = 0; swallowed = 0 }

module _ (u : Unicode) where
  -- An opener, with its info string stripped; a backtick fence's cannot hold a backtick.
  abbrev pub checked_fence : Option Fence → Option Fence
  checked_fence none = none
  checked_fence (some f) =
      if f.mark == backtick && any (λ c. c == backtick) (strip u.is_space f.info)
      then none
      else some (record f { info = strip u.is_space f.info })

  pub opener : Text → Option Fence
  unfolding fence_of strip
  opener line = checked_fence (fence_of line)

  -- The pattern `closer` of a fence.
  abbrev pub closes_with : ℕ → ℕ × Text → Bool
  closes_with size (n, rest) = leb size n && all u.is_space rest

  pub closes : Fence → Text → Bool
  unfolding skip_spaces run_of
  closes f line = closes_with f.size (run_of f.mark (skip_spaces 3 line))

  abbrev pub is_block_info : Option Fence → Bool
  is_block_info none = false
  is_block_info (some f) = strip u.is_space f.info == block_info

  pub opens_block : Text → Bool
  unfolding fence_of strip
  opens_block line = is_block_info (fence_of line)

  -- A fence that the description ends in.
  abbrev pub left_open : Fence → List Text → Found
  left_open f body =
      if f.info == block_info
      then record nothing_found { unclosed = 1 }
      else if any opens_block body
      then record nothing_found { swallowed = 1 }
      else nothing_found

  abbrev pub with_block : Fence → List Text → Found → Found
  with_block f body rest =
      if f.info == block_info then record rest { blocks = body ∷ rest.blocks } else rest

  -- The two loops, over the lines that are left: outside of a fence, or in one with its body so far.
  abbrev pub after_line : Option Fence → Option (Fence × List Text)
  after_line none = none
  after_line (some f) = some (f, [])

  unfoldable pub scan : Option (Fence × List Text) → List Text → Found
  unfolding opener closes opens_block
  scan none [] = nothing_found
  scan (some (f, body)) [] = left_open f body
  scan none (line ∷ lines) = scan (after_line (opener line)) lines
  scan (some (f, body)) (line ∷ lines) =
      let done = closes f line in
      let rest = scan (if done then none else some (f, body ++ line ∷ [])) lines in
      if done then with_block f body rest else rest
