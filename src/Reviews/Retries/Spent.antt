-- ===== src/Reviews/Retries/Spent.antt =====
-- The claims of the comment sweep: each one that is won spends an attempt.
use doug.Prelude.{
  ℕ, ◌+◌, ◌*◌, ◌≤◌, ◌<◌, ◌≡◌, refl, ◌∙◌, String, true, List, [], ◌∷◌, ◌++◌, any, ◌==◌, nat_eq,
  arith, Bool-cases, inl, inr, All, count_if, count_if-append, count_if_same, update_where,
  if◌then◌else◌, nat_beq_iff,
}
use doug.Ingest.{Job}
use doug.Prelude.{Bool, sym}
use doug.Reviews.Retries.{
  is_claimable, spend_attempt, claim_pr_comment_retry, record_pr_comment_outcome, CommentAct,
  claim_act, record_act, Comment, own, rival, pr_comment_max_retries,
}

-- The attempts that the rows of a job have spent.
pub spent : ℕ → List Job → ℕ
spent id [] = 0
spent id (j ∷ rows) =
    let rest = spent id rows in if j.id == id then j.pr_comment_attempts + rest else rest

abbrev pub job_of : Comment → ℕ
job_of (own id) = id
job_of (rival id) = id

abbrev pub is_about : ℕ → Comment → Bool
is_about id c = job_of c == id

abbrev pub posts : ℕ → List Comment → ℕ
posts id = count_if (is_about id)

unfoldable pub Capped : List Job → Type 0
Capped = All (λ j. j.pr_comment_attempts ≤ pr_comment_max_retries)

-- What a claim of a sweep needs: the sweep selected the job with this many attempts.
unfoldable pub IsSelected : CommentAct → Type 0
IsSelected (claim_act id attempts) = attempts < pr_comment_max_retries
IsSelected (record_act id outcome) = Unit

-- Posts are paid, no row exceeds the retries, and the rows of a job are as many as before.
pub record Pays (rows : List Job) (after : List Job) (posted : List Comment) : Type 0 where
  pub paid : (id : ℕ) → posts id posted + spent id rows ≤ spent id after
  pub capped : Capped rows → Capped after
  pub same_rows : (id : ℕ) → count_if (λ j. j.id == id) after ≡ count_if (λ j. j.id == id) rows

pub Pays-refl : (rows : List Job) → Pays rows rows []
Pays-refl rows = record { paid = λ id. omega arith; capped = λ h. h; same_rows = λ id. refl }

pub Pays-trans :
    (a b c : List Job) (xs ys : List Comment) → Pays a b xs → Pays b c ys → Pays a c (xs ++ ys)
Pays-trans a b c xs ys p q = record {
  paid = λ id. omega (arith, p.paid id, q.paid id, count_if-append (is_about id) xs ys);
  capped = λ h. q.capped (p.capped h);
  same_rows = λ id. q.same_rows id ∙ p.same_rows id;
}

module _ (id : ℕ) (outcome : String) where
  kept : (i : ℕ) (js : List Job) → spent i (record_pr_comment_outcome id outcome js) ≡ spent i js
  unfolding record_pr_comment_outcome spent
  kept i [] = refl
  kept i (j ∷ js) = elim (Bool-cases (j.id == id)) [
    | inl e ↦ rw (e, kept i js) refl
    | inr e ↦ rw (e, kept i js) refl
  ]

  kept_below : (js : List Job) → Capped js → Capped (record_pr_comment_outcome id outcome js)
  unfolding record_pr_comment_outcome Capped
  kept_below [] h = tt
  kept_below (j ∷ js) h = elim (Bool-cases (j.id == id)) [
    | inl e ↦ rw e (h.0, kept_below js h.1)
    | inr e ↦ rw e (h.0, kept_below js h.1)
  ]

pub record-Pays :
    (id : ℕ) (outcome : String) (rows : List Job)
    → Pays rows (record_pr_comment_outcome id outcome rows) []
unfolding record_pr_comment_outcome spent Capped
record-Pays id outcome rows = record {
  paid = λ i. rw (kept id outcome i rows) (omega arith);
  capped = kept_below id outcome rows;
  same_rows = λ i. count_if_same _ _ _ (λ j e. refl) rows;
}

module _ (id attempts : ℕ) where
  claim_raises :
      (i : ℕ) (js : List Job)
      → spent i js ≤ spent i (update_where (is_claimable id attempts) (spend_attempt attempts) js)
  unfolding spent
  claim_raises i [] = omega arith
  claim_raises i (j ∷ js) = elim (Bool-cases (is_claimable id attempts j)) [
    | inl e ↦
        let q : j.pr_comment_attempts ≡ attempts =
          (nat_beq_iff j.pr_comment_attempts attempts).0 (ground arith) in
        rw e (ground (arith, claim_raises i js))
    | inr e ↦ rw e (ground (arith, claim_raises i js))
  ]

  claim_charges :
      (js : List Job)
      → any (is_claimable id attempts) js ≡ true
      → 1 + spent id js
        ≤ spent id (update_where (is_claimable id attempts) (spend_attempt attempts) js)
  unfolding spent
  claim_charges [] h = ground arith
  claim_charges (j ∷ js) h = elim (Bool-cases (is_claimable id attempts j)) [
    | inl e ↦
        let q : j.pr_comment_attempts ≡ attempts =
          (nat_beq_iff j.pr_comment_attempts attempts).0 (ground arith) in
        let own : (j.id == id) ≡ true = ground arith in
        rw (e, own) (omega (arith, claim_raises id js))
    | inr e ↦ let more = claim_charges js (rw e at h) in rw e (ground arith)
  ]

  claim_caps :
      attempts < pr_comment_max_retries
      → (js : List Job) → Capped js
      → Capped (update_where (is_claimable id attempts) (spend_attempt attempts) js)
  unfolding Capped
  claim_caps below [] h = tt
  claim_caps below (j ∷ js) h = elim (Bool-cases (is_claimable id attempts j)) [
    | inl e ↦ rw e (omega arith, claim_caps below js h.1)
    | inr e ↦ rw e (h.0, claim_caps below js h.1)
  ]

  pub claim-Pays :
      attempts < pr_comment_max_retries
      → (rows : List Job) → Pays rows (claim_pr_comment_retry id attempts rows).0 []
  unfolding claim_pr_comment_retry
  claim-Pays below rows = record {
    paid = λ i. omega (arith, claim_raises i rows);
    capped = claim_caps below rows;
    same_rows = λ i. count_if_same _ _ _ (λ j e. refl) rows;
  }

  pub won-Pays :
      attempts < pr_comment_max_retries
      → (c : Comment) → job_of c ≡ id
      → (rows : List Job) → any (is_claimable id attempts) rows ≡ true
      → Pays rows (claim_pr_comment_retry id attempts rows).0 (c ∷ [])
  unfolding claim_pr_comment_retry
  won-Pays below c its rows won = record {
    paid = λ i. elim (Bool-cases (job_of c == i)) [
      | inl e ↦
          let q : id ≡ i = sym its ∙ (nat_beq_iff (job_of c) i).0 e in
          rw e (rw (← q) (claim_charges rows won))
      | inr e ↦ rw e (omega (arith, claim_raises i rows))
    ];
    capped = claim_caps below rows;
    same_rows = λ i. count_if_same _ _ _ (λ j e. refl) rows;
  }

pub spent_at_most :
    (id : ℕ) (rows : List Job)
    → Capped rows
    → spent id rows ≤ pr_comment_max_retries * count_if (λ j. j.id == id) rows
unfolding spent Capped
spent_at_most id [] h = omega arith
spent_at_most id (j ∷ rows) h = elim (Bool-cases (j.id == id)) [
  | inl e ↦ rw e (omega (arith, h.0, spent_at_most id rows h.1))
  | inr e ↦ rw e (spent_at_most id rows h.1)
]
