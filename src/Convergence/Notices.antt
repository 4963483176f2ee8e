-- ===== src/Convergence/Notices.antt =====
-- convergence.py: the grammar of a settlement notice.
use doug.Prelude.{
  ℕ, zero, suc, ◌-◌, true, false, ◌&&◌, Option, none, some, List, [], ◌∷◌, if◌then◌else◌, length,
  drop, Text, codes, starts_with, Parts, cons_head,
}

-- `text.partition(sep)`.
pub partition_on : Text → Text → Parts
partition_on sep [] = record { head = []; found = false; tail = [] }
partition_on sep (c ∷ cs) =
    let rest = partition_on sep cs in
    if starts_with sep (c ∷ cs)
    then record { head = []; found = true; tail = drop (length sep) (c ∷ cs) }
    else cons_head c rest

abbrev pub cons_first : ℕ → List Text → List Text
cons_first c [] = (c ∷ []) ∷ []
cons_first c (t ∷ ts) = (c ∷ t) ∷ ts

-- `text.split(sep)`; the number is how much of a separator is still to be passed over.
pub split_from : Text → ℕ → Text → List Text
split_from sep skip [] = [] ∷ []
split_from sep (suc skip) (c ∷ cs) = split_from sep skip cs
split_from sep zero (c ∷ cs) =
    let cut = starts_with sep (c ∷ cs) in
    let rest = split_from sep (if cut then length sep - 1 else 0) cs in
    if cut then [] ∷ rest else cons_first c rest

pub remove_prefix : Text → Text → Text
remove_prefix prefix s = if starts_with prefix s then drop (length prefix) s else s

-- One segment, `file: slug (claim)`.
pub segment_pair : Text → Option (Text × Text)
unfolding partition_on remove_prefix
segment_pair segment =
    let by_file = partition_on (codes ": ") segment in
    let by_claim = partition_on (codes " (") by_file.tail in
    if by_file.found && by_claim.found
    then some (by_file.head, remove_prefix (codes "reader:") by_claim.head)
    else none

pub segment_pairs : List Text → List (Text × Text)
unfolding segment_pair
segment_pairs [] = []
segment_pairs (s ∷ ss) =
    let rest = segment_pairs ss in elim (segment_pair s) [ none ↦ rest | some p ↦ p ∷ rest ]

unfoldable pub notice_segments : Text → List (Text × Text)
unfolding segment_pairs split_from partition_on
notice_segments label =
    let by_header = partition_on (codes " — ") label in
    if by_header.found then segment_pairs (split_from (codes "; ") 0 by_header.tail) else []
