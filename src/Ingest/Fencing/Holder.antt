-- ===== src/Ingest/Fencing/Holder.antt =====
-- ingest.py: what `claim` hands to a worker, and the tables on which a claim's fence holds no row.
use doug.Prelude.{
  ℕ, ◌+◌, ◌≡◌, refl, ap, ◌∙◌, ◌≢◌, Bool, true, false, Option, none, some, List, ◌==◌, nat_eq, arith,
  In, find?, find?-some, update_where_none, any_none, Bool-cases, Option-cases, inl, inr,
  find?-update_where, find?-by_key, All-of_In, ◌⊎◌,
}
use doug.Ingest.Invariant.{IsValid}
use doug.Ingest.{
  Job, Queue, running, claim, take_row, oldest_pending, pending_at, claim_row, terminal_where,
  terminal, complete, release, supersede, fail,
}
use doug.Ingest.Fencing.Advance.{row_at}

-- The row with a given id is the one that a query by primary key finds.
pub row_at-In : (q : Queue) → IsValid q → (j : Job) → In j q.rows → row_at j.id q ≡ some j
row_at-In q v j m = find?-by_key (λ i. i.id) q.rows v.ids_distinct m

-- No row satisfies the fence of a claim that the table no longer shows as running under it.
abbrev pub Unheld : ℕ → Job → Type 0
Unheld generation k = (k.status ≢ running) ⊎ (k.claim_generation ≢ generation)

not-terminal_where :
    (q : Queue) (id generation : ℕ) (k : Job)
    → IsValid q
    → row_at id q ≡ some k
    → Unheld generation k
    → (j : Job) → In j q.rows
    → terminal_where id generation j ≡ false
unfolding terminal_where
not-terminal_where q id generation k v found gone j m = elim (Bool-cases (j.id == id)) [
  | inl e ↦
      let same : j.id ≡ id = ground arith in
      let at_id : row_at id q ≡ some j = rw (← same) (row_at-In q v j m) in
      let it : j ≡ k = cc in
      ground (arith, ap (λ (t : Job). t.status) it, ap (λ (t : Job). t.claim_generation) it)
  | inr e ↦ rw e
]

-- Every operation that ends a claim answers "lost" and leaves the table as it is.
pub record IsFenced (id generation : ℕ) (q : Queue) : Type 0 where
  pub no_release : release id generation q ≡ (false, q)
  pub no_complete :
      (verdict_id : Option ℕ) (owes : Bool) (now : ℕ)
      → complete id verdict_id generation owes now q ≡ (false, q)
  pub no_supersede : (now : ℕ) → supersede id generation now q ≡ (false, q)
  pub no_fail : (error : List ℕ) (cap now : ℕ) → fail id error generation cap now q ≡ (false, q)

module _ (q : Queue) (id generation : ℕ) (k : Job) (v : IsValid q) (found : row_at id q ≡ some k)
    (gone : Unheld generation k) where
  terminal-fenced : (f : Job → Job) → terminal id generation f q ≡ (false, q)
  unfolding terminal
  terminal-fenced f =
      let nowhere =
        All-of_In (λ j. terminal_where id generation j ≡ false) q.rows
          (not-terminal_where q id generation k v found gone) in
      rw (any_none _ q.rows nowhere) (rw (update_where_none _ f q.rows nowhere) refl)

  pub unheld-IsFenced : IsFenced id generation q
  unfolding release complete supersede fail
  unheld-IsFenced = record {
    no_release = terminal-fenced _;
    no_complete = λ verdict_id owes now. terminal-fenced _;
    no_supersede = λ now. terminal-fenced _;
    no_fail = λ error cap now. terminal-fenced _;
  }

-- What a worker holds after `claim`: the row runs under the generation that it was handed.
abbrev pub Holds : Job → Queue → Type 0
Holds c q =
    (j : Job) × (row_at c.id q ≡ some j)
    × (j.claim_generation ≡ c.claim_generation)
    × (j.status ≡ running)

pub pending_at→id : (id : ℕ) (j : Job) → pending_at id j ≡ true → j.id ≡ id
unfolding pending_at
pending_at→id id j h = ground arith

-- The row that `claim` hands out has the id that it selected, and the next generation.
handed_out :
    (now : ℕ) (row j : Job) (q : Queue) (c : Job)
    → find? (pending_at row.id) q.rows ≡ some j
    → (take_row now row q).0 ≡ some c
    → (row.id ≡ c.id) × (j.claim_generation + 1 ≡ c.claim_generation)
unfolding take_row
handed_out now row j q c e h = ground arith

take_row-Holds :
    (now : ℕ) (row : Job) (q : Queue) (c : Job)
    → IsValid q
    → (take_row now row q).0 ≡ some c
    → Holds c (take_row now row q).1
unfolding take_row claim_row
take_row-Holds now row q c v h = elim (Option-cases (find? (pending_at row.id) q.rows)) [
  | inl e ↦ let lost : none ≡ some c = rw (e, take_row) at h in ground arith
  | inr (j, e) ↦
      let (m, p) = find?-some (pending_at row.id) q.rows e in
      let same = pending_at→id row.id j p in
      let old : row_at row.id q ≡ some j = rw (← same) (row_at-In q v j m) in
      let new : row_at row.id (take_row now row q).1 ≡ some (claim_row now j) =
        rw (e, take_row)
          (rw p at (
            find?-update_where (λ i. i.id == row.id) (pending_at row.id) (claim_row now) (λ i. refl)
              q.rows old)) in
      let (its_id, its_generation) = handed_out now row j q c e h in
      (claim_row now j, rw (← its_id) new, its_generation, refl)
]

pub claim-Holds :
    (now : ℕ) (q : Queue) (c : Job) → IsValid q → (claim now q).0 ≡ some c → Holds c (claim now q).1
unfolding claim
claim-Holds now q c v h = elim (Option-cases (oldest_pending q.rows)) [
  | inl e ↦ let lost : none ≡ some c = rw (e, claim) at h in ground arith
  | inr (row, e) ↦ rw (e, claim) (take_row-Holds now row q c v (rw (e, claim) at h))
]

take_row-bumps :
    (now : ℕ) (row : Job) (q : Queue) (c : Job)
    → IsValid q
    → (take_row now row q).0 ≡ some c
    → (j : Job) × (row_at c.id q ≡ some j) × (j.claim_generation + 1 ≡ c.claim_generation)
unfolding take_row
take_row-bumps now row q c v h = elim (Option-cases (find? (pending_at row.id) q.rows)) [
  | inl e ↦ let lost : none ≡ some c = rw (e, take_row) at h in ground arith
  | inr (j, e) ↦
      let (m, p) = find?-some (pending_at row.id) q.rows e in
      let (its_id, its_generation) = handed_out now row j q c e h in
      let same = pending_at→id row.id j p ∙ its_id in
      (j, rw (← same) (row_at-In q v j m), its_generation)
]

-- `claim` hands out the generation after the one that the table showed.
pub claim-bumps :
    (now : ℕ) (q : Queue) (c : Job)
    → IsValid q
    → (claim now q).0 ≡ some c
    → (j : Job) × (row_at c.id q ≡ some j) × (j.claim_generation + 1 ≡ c.claim_generation)
unfolding claim
claim-bumps now q c v h = elim (Option-cases (oldest_pending q.rows)) [
  | inl e ↦ let lost : none ≡ some c = rw (e, claim) at h in ground arith
  | inr (row, e) ↦ take_row-bumps now row q c v (rw (e, claim) at h)
]
