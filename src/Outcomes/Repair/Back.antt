-- ===== src/Outcomes/Repair/Back.antt =====
-- transfer_repair.py: what a repair takes out of the tables is what putting it back finds.
use doug.Prelude.{
  ℕ, ◌≡◌, ◌↔◌, ◌⊎◌, refl, ap, sym, ◌∙◌, Bool, true, false, ◌&&◌, not, Option, some, List, [], ◌∷◌,
  ◌++◌, map, keep, any, any-true, update_where, ◌==◌, nat_eq, arith, All, All-at, In, here, there,
  In-cases, In-map, In-any, In-unique, In-keep, keep-In, Bool-cases, Option-cases, inl, inr,
  if◌then◌else◌, Text, nat_beq_iff,
}
use mathlib.Core.Path.{subst}
use doug.Outcomes.Rows.{OutcomeJob}
use doug.Outcomes.Repair.{StoredOutcome, Db, RepairRow, has}
use doug.Outcomes.Repair.Inspected.{Reports}
use doug.Outcomes.Repair.Applied.{IsKeyed, has-In, row_named, job_named}
use doug.Outcomes.Repair.Steps.{of_outcome, job_ids, undone, same_outcome, is_absent, put_back}

In-either : {o : StoredOutcome} (xs ys : List StoredOutcome) → In o (xs ++ ys) → In o xs ⊎ In o ys
In-either [] ys m = inr m
In-either (x ∷ xs) ys m = elim (In-cases m) [
  | inl e ↦ inl (rw e here)
  | inr n ↦ elim (In-either xs ys n) [ inl k ↦ inl (there k) | inr k ↦ inr k ]
]

In-left :
    {o : StoredOutcome} {xs : List StoredOutcome} (ys : List StoredOutcome)
    → In o xs
    → In o (xs ++ ys)
In-left ys here = here
In-left ys (there m) = there (In-left ys m)

In-right :
    {o : StoredOutcome} (xs : List StoredOutcome) {ys : List StoredOutcome}
    → In o ys
    → In o (xs ++ ys)
In-right [] m = m
In-right (x ∷ xs) m = there (In-right xs m)

-- Two updates, one after the other, where the second finds just what the first changed.
pub update-twice :
    (p q : OutcomeJob → Bool) (f g : OutcomeJob → OutcomeJob) (js : List OutcomeJob)
    → All (λ j. q (if p j then f j else j) ≡ p j) js
    → update_where q g (update_where p f js) ≡ update_where p (λ j. g (f j)) js
update-twice p q f g [] h = refl
update-twice p q f g (j ∷ js) h = elim (Bool-cases (p j)) [
  | inl e ↦
      let now : q (f j) ≡ true = rw e at (h.0) in
      rw (e, now) (ap (◌∷◌ (g (f j))) (update-twice p q f g js h.1))
  | inr e ↦
      let now : q j ≡ false = rw e at (h.0) in
      rw (e, now) (ap (◌∷◌ j) (update-twice p q f g js h.1))
]

pub same_nat : (n : ℕ) → (n == n) ≡ true
same_nat n = (nat_beq_iff n n).1 refl

both : {a b : Bool} → a ≡ true → b ≡ true → a && b ≡ true
both h k = ground arith

split : {a b : Bool} → a && b ≡ true → (a ≡ true) × (b ≡ true)
split h = ground arith

job_ids-In :
    (r : RepairRow) (id : ℕ) (rows : List RepairRow)
    → In r rows
    → r.job_id ≡ some id
    → In id (job_ids rows)
job_ids-In r id [] m e = elim m [ ]
job_ids-In r id (x ∷ rows) here e = rw e here
job_ids-In r id (x ∷ rows) (there m) e = elim (Option-cases x.job_id) [
  | inl f ↦ rw f (job_ids-In r id rows m e)
  | inr (n, f) ↦ rw f (there (job_ids-In r id rows m e))
]

module _ (db : Db) (rows : List RepairRow) where
  abbrev its_ids : List ℕ
  its_ids = map (λ r. r.outcome_id) rows

  abbrev pub taken : List StoredOutcome
  taken = keep (λ o. has (map (λ r. r.outcome_id) rows) o.id) db.outcomes

  -- The outcomes are those of before, in some order.
  pub outcomes_back :
      (o : StoredOutcome) → In o (put_back taken (undone rows db)).outcomes ↔ In o db.outcomes
  unfolding put_back undone
  outcomes_back o = (forth, back)
    where
      forth : In o (put_back taken (undone rows db)).outcomes → In o db.outcomes
      forth m = elim (In-either (keep (is_absent (undone rows db).outcomes) taken) _ m) [
        | inl k ↦ (In-keep _ db.outcomes ((In-keep _ taken k).0)).0
        | inr k ↦ (In-keep _ db.outcomes k).0
      ]

      gone :
          has (map (λ r. r.outcome_id) rows) o.id ≡ true
          → is_absent (undone rows db).outcomes o ≡ true
      gone e = elim (Bool-cases (any (same_outcome o) (undone rows db).outcomes)) [
        | inr f ↦ rw f refl
        | inl f ↦
            let (x, m, g) = any-true (same_outcome o) (undone rows db).outcomes f in
            let (n, t) =
              In-keep (λ y. not (has (map (λ r. r.outcome_id) rows) y.id)) db.outcomes m in
            let same : x.id ≡ o.id = (nat_beq_iff x.id o.id).0 g in
            let lost : not true ≡ true = rw (same, e) at t in ground arith
      ]

      back : In o db.outcomes → In o (put_back taken (undone rows db)).outcomes
      back m = elim (Bool-cases (has (map (λ r. r.outcome_id) rows) o.id)) [
        | inr e ↦
            In-right (keep (is_absent (undone rows db).outcomes) taken)
              (keep-In (λ x. not (has (map (λ r. r.outcome_id) rows) x.id)) m (rw e refl))
        | inl e ↦ In-left (undone rows db).outcomes (
            keep-In (is_absent (undone rows db).outcomes)
              (keep-In (λ x. has (map (λ r. r.outcome_id) rows) x.id) m e) (gone e))
      ]

  -- A job is settled again exactly where it was pending again.
  pub settled_again :
      (censor_reason : Option Text → Option Text)
      → IsKeyed db
      → All (Reports censor_reason db) rows
      → (j : OutcomeJob) → In j db.ledger.jobs
      → any
          (λ o. any (same_outcome o) taken && of_outcome o j)
          (put_back taken (undone rows db)).outcomes
        ≡ has (job_ids rows) j.id
  settled_again censor_reason k h j m = elim (Bool-cases (has (job_ids rows) j.id)) [
    | inl e ↦
        let (r, n, f) = job_named rows j.id (has-In (job_ids rows) j.id e) in
        let (o, mo, same, t, job, one) = All-at (Reports censor_reason db) h n in
        let (i, mi, same_job, of_it) = job j.id f in
        let it : i ≡ j = In-unique (λ y. y.id) db.ledger.jobs k.job_ids_distinct mi m same_job in
        let there_now = (outcomes_back o).1 mo in
        let its_id : has its_ids o.id ≡ true = rw same (
          In-any (λ x. x == r.outcome_id) (In-map (λ x. x.outcome_id) n) (same_nat r.outcome_id)) in
        let named =
          In-any (same_outcome o) (keep-In (λ x. has its_ids x.id) mo its_id) (same_nat o.id) in
        let of_j : of_outcome o j ≡ true = subst (λ y. of_outcome o y ≡ true) it of_it in
        rw e
          (In-any (λ x. any (same_outcome x) taken && of_outcome x j) there_now (both named of_j))
    | inr e ↦
        elim (Bool-cases (
          any (λ x. any (same_outcome x) taken && of_outcome x j)
            (put_back taken (undone rows db)).outcomes)) [
              | inr f ↦ rw (f, e) refl
              | inl f ↦
                  let (x, mx, both_hold) =
                    any-true _ (put_back taken (undone rows db)).outcomes f in
                  let (named, of_j) = split both_hold in
                  let (y, my, g) = any-true (same_outcome x) taken named in
                  let (ny, its) = In-keep (λ o. has its_ids o.id) db.outcomes my in
                  let (r, n, at) = row_named rows y.id (has-In its_ids y.id its) in
                  let (o, mo, same, t, job, one) = All-at (Reports censor_reason db) h n in
                  let equal : y.id ≡ x.id = (nat_beq_iff y.id x.id).0 g in
                  let it : x ≡ o =
                    In-unique (λ z. z.id) db.outcomes k.outcome_ids ((outcomes_back x).0 mx) mo
                      (sym equal ∙ sym at ∙ sym same) in
                  let its_job : r.job_id ≡ some j.id =
                    one j m (subst (λ z. of_outcome z j ≡ true) it of_j) in
                  let hit : has (job_ids rows) j.id ≡ true =
                    In-any (λ i. i == j.id) (job_ids-In r j.id rows n its_job) (same_nat j.id) in
                  let lost : true ≡ false = sym hit ∙ e in ground arith
            ]
  ]
