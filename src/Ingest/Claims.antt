-- ===== src/Ingest/Claims.antt =====
-- ingest.py: which row `claim` takes, which claims the lease takes back, and what a failed attempt
-- costs.
use doug.Prelude.{
  ℕ, ◌+◌, ◌≤◌, ◌<◌, ◌≡◌, refl, sym, ◌∙◌, true, false, Option, none, some, List, [], ◌∷◌, arith, In,
  here, there, All, All-at, All-map_at, All-each_updated, count_if, count_if-update_where, find?,
  find?-some, find?-none, find?-update_where, any-true, Bool-cases, Option-cases, inl, inr, ◌⊎◌,
  ◌==◌, nat_eq,
}
use mathlib.Core.Bool.{false≢true}
use doug.Prelude.{Each, Each-update_where, if◌then◌else◌}
use mathlib.Core.Path.{subst}
use doug.Ingest.Invariant.{IsValid}
use doug.Ingest.Invariant.RowLaws.{RowIsValid}
use doug.Ingest.Fencing.Advance.{row_at}
use doug.Ingest.Fencing.Holder.{row_at-In, pending_at→id}
use doug.Ingest.{
  pending, running, failed, Job, seconds, Queue, before, first_of_two, is_pending, is_running,
  oldest_pending, pending_at, claim_row, take_row, claim, stalled, reclaim_row, reclaim_stalled,
  terminal_where, terminal, fail, fail_row, max_attempts,
}

-- The order in which `claim` serves the queue: `enqueued_at`, then `id`.
abbrev pub NotAfter : Job → Job → Type 0
NotAfter j k = (j.enqueued_at < k.enqueued_at) ⊎ (j.enqueued_at ≡ k.enqueued_at) × (j.id ≤ k.id)

NotAfter-trans : (i j k : Job) → NotAfter i j → NotAfter j k → NotAfter i k
NotAfter-trans i j k p q = ground arith

abbrev pub IsFirst : Job → List Job → Type 0
IsFirst j rows = All (λ k. is_pending k.status ≡ true → NotAfter j k) rows

no_pending :
    (rows : List Job) → oldest_pending rows ≡ none → All (λ k. is_pending k.status ≡ false) rows
unfolding oldest_pending
no_pending [] h = tt
no_pending (j ∷ js) h = elim (Bool-cases (is_pending j.status)) [
  | inl e ↦
      let lost : some (first_of_two j (oldest_pending js)) ≡ none = rw (e, oldest_pending) at h in
      ground arith
  | inr e ↦ (e, no_pending js (rw (e, oldest_pending) at h))
]

-- Of two rows `claim` prefers one that is not after the other.
first-NotAfter :
    (i k : Job)
    → ((first_of_two i (some k) ≡ i) × NotAfter i k)
      ⊎ ((first_of_two i (some k) ≡ k) × NotAfter k i)
first-NotAfter i k = elim (Bool-cases (before i k)) [
  | inl e ↦ inl (rw e refl, ground arith)
  | inr e ↦ inr (rw e refl, ground arith)
]

abbrev pub Oldest : Job → List Job → Type 0
Oldest j rows = In j rows × (is_pending j.status ≡ true) × IsFirst j rows

NotAfter-refl : (j : Job) → NotAfter j j
NotAfter-refl j = inr (refl, omega arith)

add_pending :
    (i : Job) (is : List Job) (rest : Option Job)
    → is_pending i.status ≡ true
    → oldest_pending is ≡ rest
    → ((k : Job) → rest ≡ some k → Oldest k is)
    → Oldest (first_of_two i rest) (i ∷ is)
add_pending i is none e found ih = (
  here,
  e,
  (
    (λ _. NotAfter-refl i),
    All-map_at (λ k n p. absurd (false≢true (sym n ∙ p))) is (no_pending is found),
  ),
)
add_pending i is (some k) e found ih =
    let (m, p, first) = ih k refl in
    elim (first-NotAfter i k) [
      | inl (same, order) ↦
          subst (λ j. Oldest j (i ∷ is)) (sym same)
            (
              here,
              e,
              (
                (λ _. NotAfter-refl i),
                All-map_at (λ l g q. NotAfter-trans i k l order (g q)) is first,
              ),
            )
      | inr (same, order) ↦
          subst (λ j. Oldest j (i ∷ is)) (sym same) (there m, p, ((λ _. order), first))
    ]

oldest_pending-Oldest : (rows : List Job) (j : Job) → oldest_pending rows ≡ some j → Oldest j rows
unfolding oldest_pending
oldest_pending-Oldest [] j h = ground arith
oldest_pending-Oldest (i ∷ is) j h = elim (Bool-cases (is_pending i.status)) [
  | inl e ↦
      let found : some (first_of_two i (oldest_pending is)) ≡ some j =
        rw (e, oldest_pending) at h in
      let it : first_of_two i (oldest_pending is) ≡ j = cc found in
      subst (λ k. Oldest k (i ∷ is)) it
        (add_pending i is (oldest_pending is) e refl (oldest_pending-Oldest is))
  | inr e ↦
      let (m, p, first) = oldest_pending-Oldest is j (rw (e, oldest_pending) at h) in
      (there m, p, ((λ q. absurd (false≢true (sym e ∙ q))), first))
]

pending_at_self : (row : Job) → is_pending row.status ≡ true → pending_at row.id row ≡ true
unfolding pending_at
pending_at_self row p = ground arith

pending_found :
    (q : Queue) (row : Job)
    → IsValid q
    → In row q.rows
    → is_pending row.status ≡ true
    → find? (pending_at row.id) q.rows ≡ some row
pending_found q row v m p = elim (Option-cases (find? (pending_at row.id) q.rows)) [
  | inl e ↦
      let missed = find?-none (pending_at row.id) q.rows e m in
      absurd (false≢true (sym missed ∙ pending_at_self row p))
  | inr (j, e) ↦
      let (n, r) = find?-some (pending_at row.id) q.rows e in
      let same = pending_at→id row.id j r in
      let it = subst (λ i. row_at i q ≡ some j) same (row_at-In q v j n) in
      e ∙ sym it ∙ row_at-In q v row m
]

-- `claim` hands out a pending row that no pending row precedes in the order (enqueued_at, id), as it
-- stood but for its status, its start time and its generation, which is one more; it hands out none
-- exactly when no row is pending, and then changes nothing.
pub claim_serves-Oldest :
    (now : ℕ) (q : Queue)
    → IsValid q
    → (All (λ k. is_pending k.status ≡ false) q.rows × (claim now q ≡ (none, q)))
      ⊎ ((row : Job) × Oldest row q.rows
          × ((claim now q).0 ≡ some (claim_row now row))
          × (row_at row.id (claim now q).1 ≡ some (claim_row now row)))
unfolding claim take_row claim_row
claim_serves-Oldest now q v = elim (Option-cases (oldest_pending q.rows)) [
  | inl e ↦ inl (no_pending q.rows e, rw (e, claim) refl)
  | inr (row, e) ↦
      let (m, p, first) = oldest_pending-Oldest q.rows row e in
      let found = pending_found q row v m p in
      let new =
        find?-update_where (λ i. i.id == row.id) (pending_at row.id) (claim_row now) (λ i. refl)
          q.rows (row_at-In q v row m) in
      inr (
        row,
        (m, p, first),
        rw (e, claim) (rw (found, take_row) refl),
        rw (e, claim) (rw (found, take_row) (rw (pending_at_self row p) at new)),
      )
]

-- A claim that is older than the lease, or has no start.
pub IsOverdue : ℕ → ℕ → Job → Type 0
IsOverdue lease now j =
    (j.status ≡ running)
    × ((j.started_at ≡ none) ⊎ ((t : ℕ) × (j.started_at ≡ some t) × (t + seconds lease < now)))

-- An overdue claim goes back behind the queue; any other row stays.
pub IsTakenBack : ℕ → ℕ → Job → Job → Type 0
IsTakenBack lease now j k =
    (IsOverdue lease now j
      × (k ≡ record j { status = pending; started_at = none; enqueued_at = now }))
    ⊎ (¬ (IsOverdue lease now j) × (k ≡ j))

stalled-IsOverdue :
    (lease now : ℕ) (j : Job) (s : Option ℕ)
    → j.started_at ≡ s
    → stalled lease now j ≡ true
    → IsOverdue lease now j
unfolding stalled IsOverdue
stalled-IsOverdue lease now j none e h = (ground arith, inl e)
stalled-IsOverdue lease now j (some t) e h =
    let h' = rw e at h in (ground arith, inr (t, e, ground arith))

IsOverdue-stalled : (lease now : ℕ) (j : Job) → IsOverdue lease now j → stalled lease now j ≡ true
unfolding stalled IsOverdue
IsOverdue-stalled lease now j (r, inl e) = rw (r, e) refl
IsOverdue-stalled lease now j (r, inr (t, e, late)) = rw (r, e) (ground arith)

reclaim_row-IsTakenBack :
    (lease now : ℕ) (j : Job)
    → IsTakenBack lease now j (if stalled lease now j then reclaim_row now j else j)
unfolding IsTakenBack reclaim_row
reclaim_row-IsTakenBack lease now j = elim (Bool-cases (stalled lease now j)) [
  | inl e ↦ rw e (inl (stalled-IsOverdue lease now j j.started_at refl e, refl))
  | inr e ↦ rw e (inr ((λ o. false≢true (sym e ∙ IsOverdue-stalled lease now j o)), refl))
]

-- The lease sweep takes back exactly the claims that are older than the lease or have no start: each
-- such row, in its place, is pending again without a start time, queued at the time of the sweep and
-- otherwise as it was, and every other row is as it was; the answer counts the rows that have left
-- the running ones, and none is left that a second sweep at that time would take.
pub reclaim_stalled_exact :
    (lease now : ℕ) (q : Queue)
    → Each (IsTakenBack lease now) q.rows (reclaim_stalled lease now q).1.rows
      × (count_if (λ j. is_running j.status) (reclaim_stalled lease now q).1.rows
            + (reclaim_stalled lease now q).0
          ≡ count_if (λ j. is_running j.status) q.rows)
      × All (λ j. stalled lease now j ≡ false) (reclaim_stalled lease now q).1.rows
unfolding reclaim_stalled stalled reclaim_row
reclaim_stalled_exact lease now q = (
  Each-update_where (IsTakenBack lease now) (stalled lease now) (reclaim_row now)
      (reclaim_row-IsTakenBack lease now) q.rows,
  count_if-update_where (λ j. is_running j.status) (stalled lease now) (reclaim_row now)
      (λ j h. ground arith) q.rows,
  All-each_updated (λ j. stalled lease now j ≡ false) (stalled lease now) (reclaim_row now)
      (λ j. ground arith) q.rows,
)

-- What one failed attempt makes of a running row.
abbrev pub Charged : Job → ℕ → Job → Type 0
Charged j now k =
    (k.attempts ≡ j.attempts + 1)
    × (k.attempts < max_attempts
        → (k.status ≡ pending) × (k.enqueued_at ≡ now) × (k.finished_at ≡ none))
    × (k.attempts ≡ max_attempts
        → (k.status ≡ failed) × (k.enqueued_at ≡ j.enqueued_at) × (k.finished_at ≡ some now))
    × (k.attempts ≤ max_attempts)

fail_row-Charged :
    (error : List ℕ) (now : ℕ) (j : Job)
    → RowIsValid j
    → j.status ≡ running
    → Charged j now (fail_row error max_attempts now j)
unfolding fail_row
fail_row-Charged error now j v r = ground arith

-- A holder's `fail` spends one attempt: below the cap the row goes back to pending behind what is
-- queued by then, and at the cap it is failed, with its finish time, and keeps its place.
pub fail_charges :
    (id : ℕ) (error : List ℕ) (generation now : ℕ) (q : Queue)
    → IsValid q
    → (fail id error generation max_attempts now q).0 ≡ true
    → (j : Job) × (row_at id q ≡ some j)
      × (k : Job) × (row_at id (fail id error generation max_attempts now q).1 ≡ some k)
      × Charged j now k
unfolding fail terminal
fail_charges id error generation now q v h =
    let (j, m, p) = any-true (terminal_where id generation) q.rows h in
    let same : j.id ≡ id = unfold terminal_where in ground arith in
    let runs : j.status ≡ running = unfold terminal_where in ground arith in
    let old : row_at id q ≡ some j = rw same at (row_at-In q v j m) in
    let f = fail_row error max_attempts now in
    (
      j,
      old,
      f j,
      rw p at (
          find?-update_where (λ i. i.id == id) (terminal_where id generation) f
            (λ i. unfold fail_row in refl) q.rows old),
      fail_row-Charged error now j (All-at RowIsValid v.rows_valid m) runs,
    )
