-- ===== src/Convergence/Budget.antt =====
-- convergence.py: the pairing of prior and later findings of one identity by their counts.
use doug.Prelude.{
  ℕ, suc, ◌-◌, min, ◌≡◌, refl, ◌∙◌, sym, Bool, true, false, ◌&&◌, ◌||◌, Option, none, some, List,
  [], ◌∷◌, arith, if◌then◌else◌, nat_eq, list_eq, list_beq_iff, list_beq_refl, count_if, ltb,
  Bool-cases, Option-cases, inl, inr,
}
use doug.Convergence.Rows.{
  Finding, Read, Side, prior, later, persisted, new, matched, Reason, Classification,
}
use doug.Convergence.Patterns.{Unicode, from_rule}
use doug.Convergence.Cases.{rule5-cases}
use doug.Convergence.{
  Identity, Counter, same_identity, has_identity, identity, unmatchable, absent, prior_step,
  prior_rows, later_step, is_state, spend,
}

same_identity-same : (p q : Identity) → same_identity p q ≡ true → p ≡ q
same_identity-same (p, f) (q, g) h =
    let e : p ≡ q = (list_beq_iff p q).0 (ground arith) in
    let d : f ≡ g = (list_beq_iff f g).0 (ground arith) in cc

same_identity_refl : (p : Identity) → same_identity p p ≡ true
same_identity_refl (p, f) = ground (arith, list_beq_refl p, list_beq_refl f)

same_identity_comm : (p q : Identity) → same_identity p q ≡ false → same_identity q p ≡ false
same_identity_comm p q h = elim (Bool-cases (same_identity q p)) [
  | inr e ↦ e
  | inl e ↦
      let same = same_identity-same q p e in
      let lost : same_identity p p ≡ false = rw same at h in ground (arith, same_identity_refl p)
]

abbrev pub without_basis : Classification → Bool
without_basis e = elim e.basis [ none ↦ true | some b ↦ false ]

module _ (u : Unicode) where
  -- The entries of one identity that pair a prior row with a later one, and the new ones.
  abbrev pub rereported : Identity → Classification → Bool
  rereported k e = is_state persisted e.state && without_basis e && has_identity u k e.finding

  abbrev pub matched_at : Identity → Classification → Bool
  matched_at k e = is_state matched e.state && has_identity u k e.finding

  abbrev pub new_at : Identity → Classification → Bool
  new_at k e = is_state new e.state && has_identity u k e.finding

  -- What a row takes from the budget of an identity: one, if it has the identity and any is left.
  abbrev takes : Identity → Counter → Finding → Bool
  takes k budget row = has_identity u k row && ltb 0 (budget k)

  has_identity-some :
      (k i : Identity) (row : Finding)
      → identity u row ≡ some i
      → has_identity u k row ≡ same_identity i k
  has_identity-some k i row e = rw (e, has_identity) refl

  has_identity-none :
      (k : Identity) (row : Finding) → identity u row ≡ none → has_identity u k row ≡ false
  has_identity-none k row e = rw (e, has_identity) refl

  -- The budget after a row of identity `i` was paired, or was not for want of budget.
  spend-takes :
      (k i : Identity) (budget : Counter) (row : Finding)
      → identity u row ≡ some i
      → ltb 0 (budget i) ≡ true
      → spend i budget k ≡ (if takes k budget row then budget k - 1 else budget k)
  unfolding spend
  spend-takes k i budget row e left =
      rw (has_identity-some k i row e) (elim (Bool-cases (same_identity i k)) [
        | inl f ↦
            let same = same_identity-same i k f in
            let some_left : ltb 0 (budget k) ≡ true = rw same at left in
            rw (f, some_left) (rw same (rw (same_identity_refl k) refl))
        | inr f ↦ rw (f, same_identity_comm i k f) refl
      ])

  kept-takes :
      (k i : Identity) (budget : Counter) (row : Finding)
      → identity u row ≡ some i
      → ltb 0 (budget i) ≡ false
      → takes k budget row ≡ false
  kept-takes k i budget row e spent_all =
      rw (has_identity-some k i row e) (elim (Bool-cases (same_identity i k)) [
        | inl f ↦
            let same = same_identity-same i k f in
            let it : ltb 0 (budget k) ≡ false = rw same at spent_all in rw (f, it) refl
        | inr f ↦ rw f refl
      ])

  left-takes :
      (k i : Identity) (budget : Counter) (row : Finding)
      → identity u row ≡ some i
      → ltb 0 (budget i) ≡ true
      → has_identity u k row ≡ takes k budget row
  left-takes k i budget row e left =
      rw (has_identity-some k i row e) (elim (Bool-cases (same_identity i k)) [
        | inl f ↦
            let same = same_identity-same i k f in
            let some_left : ltb 0 (budget k) ≡ true = rw same at left in rw (f, some_left) refl
        | inr f ↦ rw f refl
      ])

  -- A step marks its entry for the identity exactly where it takes one from its budget.
  abbrev Steps :
      (Identity → Classification → Bool)
      → Identity
      → Counter
      → Finding
      → Classification × Counter
      → Type 0
  Steps marks k budget row r =
      (marks k r.0 ≡ takes k budget row)
      × (r.1 k ≡ (if takes k budget row then budget k - 1 else budget k))

  pub unmatchable-unmarked :
      (side : Side) (row : Finding) (k : Identity)
      → (rereported k (unmatchable u side row) ≡ false)
        × (matched_at k (unmatchable u side row) ≡ false)
        × (new_at k (unmatchable u side row) ≡ false)
  unfolding unmatchable
  unmatchable-unmarked side row k = elim (Option-cases (from_rule u row.rule)) [
    | inl e ↦ rw (e, unmatchable) (refl, refl, refl)
    | inr (p, e) ↦ rw (e, unmatchable) (refl, refl, refl)
  ]

  module _ (reasons : List Finding) (later_read prior_read : Option Read) where
    absent-unmarked :
        (row : Finding) (i k : Identity) (r : Option Reason)
        → rereported k (absent u reasons later_read prior_read row i r) ≡ false
    unfolding absent
    absent-unmarked row i k (some r) = refl
    absent-unmarked row i k none =
        rule5-cases (λ e. rereported k e ≡ false) row (λ r. refl) refl (λ d. refl) i.1 prior_read
          later_read

    pub prior_step-Steps :
        (k : Identity) (row : Finding) (budget : Counter) (i : Option Identity)
        → identity u row ≡ i
        → Steps rereported k budget row (prior_step u reasons later_read prior_read row budget i)
    unfolding prior_step
    prior_step-Steps k row budget none e =
        rw (has_identity-none k row e) ((unmatchable-unmarked prior row k).0, refl)
    prior_step-Steps k row budget (some i) e = elim (Bool-cases (ltb 0 (budget i))) [
      | inl left ↦ rw left (left-takes k i budget row e left, spend-takes k i budget row e left)
      | inr gone ↦ rw gone (
        absent-unmarked row i k _ ∙ sym (kept-takes k i budget row e gone),
        rw (kept-takes k i budget row e gone) refl,
      )
    ]

    pub later_step-Steps :
        (k : Identity) (row : Finding) (budget : Counter) (i : Option Identity)
        → identity u row ≡ i
        → Steps matched_at k budget row (later_step u reasons later_read prior_read row budget i)
    unfolding later_step
    later_step-Steps k row budget none e =
        rw (has_identity-none k row e) ((unmatchable-unmarked later row k).1, refl)
    later_step-Steps k row budget (some i) e = elim (Bool-cases (ltb 0 (budget i))) [
      | inl left ↦ rw left (left-takes k i budget row e left, spend-takes k i budget row e left)
      | inr gone ↦
          rw gone
            (sym (kept-takes k i budget row e gone), rw (kept-takes k i budget row e gone) refl)
    ]

    -- A later row of the identity is matched or new.
    pub later_step-matched_or_new :
        (k : Identity) (row : Finding) (budget : Counter) (i : Option Identity)
        → identity u row ≡ i
        → let e = (later_step u reasons later_read prior_read row budget i).0 in
          (has_identity u k row ≡ (matched_at k e || new_at k e))
          × ((matched_at k e && new_at k e) ≡ false)
    unfolding later_step
    later_step-matched_or_new k row budget none e = rw (has_identity-none k row e) (
        rw ((unmatchable-unmarked later row k).1, (unmatchable-unmarked later row k).2)
          (refl, refl))
    later_step-matched_or_new k row budget (some i) e = elim (Bool-cases (ltb 0 (budget i))) [
      | inl left ↦ rw left (elim (Bool-cases (has_identity u k row)) [
        | inl h ↦ rw h (refl, refl)
        | inr h ↦ rw h (refl, refl)
      ])
      | inr gone ↦ rw gone (elim (Bool-cases (has_identity u k row)) [
        | inl h ↦ rw h (refl, refl)
        | inr h ↦ rw h (refl, refl)
      ])
    ]

    -- One step of the sums below.
    pub step_sum :
        (marked takes has : Bool) (budget left c n : ℕ)
        → marked ≡ takes
        → takes ≡ (has && ltb 0 budget)
        → left ≡ (if takes then budget - 1 else budget)
        → n ≡ min left c
        → (if marked then suc n else n) ≡ min budget (if has then suc c else c)
    step_sum marked takes has budget left c n e f g h = ground arith

    pub prior_rows-count :
        (k : Identity) (rows : List Finding) (budget : Counter)
        → count_if (rereported k) (prior_rows u reasons later_read prior_read budget rows)
          ≡ min (budget k) (count_if (has_identity u k) rows)
    unfolding prior_rows
    prior_rows-count k [] budget = ground arith
    prior_rows-count k (row ∷ rows) budget =
        let (marked, left) = prior_step-Steps k row budget (identity u row) refl in
        step_sum _ _ _ _ _ _ _ marked refl left (prior_rows-count k rows _)
