-- ===== src/Outcomes/Adjudicate/Accounting.antt =====
-- adjudicate.py: exactly one result for each job, and the count of the labels that predate a merge.
use doug.Prelude.{
  ℕ, ◌+◌, String, ◌≡◌, refl, ◌≢◌, Bool, true, ◌&&◌, Option, none, some, List, [], ◌∷◌, arith,
  length, All, count_if, ◌==◌, nat_eq, Bool-cases, inl, inr, if◌then◌else◌,
}
use doug.Prelude.Int.{ℤ}
use doug.Outcomes.Rows.{
  DateTime, OutcomeJob, Commit, revert, Outcome, DateError, Unadjudicable, Adjudication,
}
use doug.Outcomes.Adjudicate.{
  Result, ok, value_error, in_window, without_revert, disposition, classify, predates, bump,
  predated_from, predated_reverts, revert_instant_of, add_result, adjudicate,
}

module _ (fromisoformat : String → Option DateTime) (revert_map : ℕ → Option Commit)
    (branch : Option String) where
  -- The jobs, dealt out in their order: one that can be read is classified, one whose attributed
  -- revert has an unreadable date is refused with that error.
  pub data Deals : List OutcomeJob → List Outcome → List Unadjudicable → Type 0 where
    nothing : Deals [] [] []
    classified :
        {jobs : List OutcomeJob} {os : List Outcome} {us : List Unadjudicable} (job : OutcomeJob)
        (r : Option ℤ)
        → revert_instant_of fromisoformat (revert_map job.pr_number) ≡ ok r
        → Deals jobs os us
        → Deals (job ∷ jobs) (classify job (revert_map job.pr_number) r branch ∷ os) us
    refused :
        {jobs : List OutcomeJob} {os : List Outcome} {us : List Unadjudicable} (job : OutcomeJob)
        (e : DateError)
        → revert_instant_of fromisoformat (revert_map job.pr_number) ≡ value_error e
        → Deals jobs os us
        → Deals (job ∷ jobs) os (record { job = job; reason = e } ∷ us)

  add_result-Deals :
      (job : OutcomeJob) (jobs : List OutcomeJob) (rest : Adjudication) (r : Result (Option ℤ))
      → revert_instant_of fromisoformat (revert_map job.pr_number) ≡ r
      → Deals jobs rest.outcomes rest.unadjudicable
      → let a = add_result fromisoformat job (revert_map job.pr_number) branch r rest in
        Deals (job ∷ jobs) a.outcomes a.unadjudicable
  add_result-Deals job jobs rest (ok t) e d = classified job t e d
  add_result-Deals job jobs rest (value_error x) e d = refused job x e d

  -- The loop of `adjudicate` deals each job out by `revert_instant_of` and `classify`.
  pub adjudicate-Deals :
      (jobs : List OutcomeJob)
      → let a = adjudicate fromisoformat revert_map branch jobs in
        Deals jobs a.outcomes a.unadjudicable
  unfolding adjudicate
  adjudicate-Deals [] = nothing
  adjudicate-Deals (job ∷ jobs) =
      add_result-Deals job jobs (adjudicate fromisoformat revert_map branch jobs) _ refl
        (adjudicate-Deals jobs)

  pub length-Deals :
      {jobs : List OutcomeJob} {os : List Outcome} {us : List Unadjudicable}
      → Deals jobs os us
      → length os + length us ≡ length jobs
  length-Deals nothing = refl
  length-Deals (classified job r e d) = omega (arith, length-Deals d)
  length-Deals (refused job x e d) = omega (arith, length-Deals d)

-- `dropped.get(w, 0)`.
abbrev pub get : ℕ → List (ℕ × ℕ) → ℕ
get w [] = 0
get w ((v, n) ∷ rest) = if v == w then n else get w rest

get-bump :
    (w v : ℕ) (dropped : List (ℕ × ℕ))
    → get w (bump v dropped) ≡ (if v == w then get w dropped + 1 else get w dropped)
unfolding bump
get-bump w v [] = ground arith
get-bump w v ((u, n) ∷ rest) = ground (arith, get-bump w v rest)

abbrev predates_in : ℕ → Outcome → Bool
predates_in w o = predates o && o.window_days == w

get-predated_from :
    (w : ℕ) (dropped : List (ℕ × ℕ)) (os : List Outcome)
    → get w (predated_from dropped os) ≡ get w dropped + count_if (predates_in w) os
unfolding predated_from
get-predated_from w dropped [] = omega arith
get-predated_from w dropped (o ∷ os) = elim (Bool-cases (predates o)) [
  | inl e ↦
      rw (e, predated_from)
        (ground (
          arith,
          get-bump w o.window_days dropped,
          get-predated_from w (bump o.window_days dropped) os,
        ))
  | inr e ↦ rw (e, predated_from) (ground (arith, get-predated_from w dropped os))
]

predates-ne-revert :
    (job : OutcomeJob) (commit : Option Commit) (r : Option ℤ) (branch : Option String)
    → let o = classify job commit r branch in predates o ≡ true → o.kind ≢ revert
unfolding classify disposition in_window without_revert
predates-ne-revert job commit none branch h = ground arith
predates-ne-revert job commit (some t) none h = ground arith
predates-ne-revert job commit (some t) (some b) h = ground arith

module _ (fromisoformat : String → Option DateTime) (revert_map : ℕ → Option Commit)
    (branch : Option String) where
  dealt_predating :
      {jobs : List OutcomeJob} {os : List Outcome} {us : List Unadjudicable}
      → Deals fromisoformat revert_map branch jobs os us
      → All (λ o. predates o ≡ true → o.kind ≢ revert) os
  dealt_predating nothing = tt
  dealt_predating (classified job r e d) =
      (predates-ne-revert job (revert_map job.pr_number) r branch, dealt_predating d)
  dealt_predating (refused job x e d) = dealt_predating d

  -- For each window length, `predated_reverts` counts the outcomes of that window whose attributed
  -- revert lies before the window, and none of those is published as a miss.
  pub predated_reverts_exact :
      (jobs : List OutcomeJob) (w : ℕ)
      → let a = adjudicate fromisoformat revert_map branch jobs in
        (get w (predated_reverts a) ≡ count_if (λ o. predates o && o.window_days == w) a.outcomes)
        × All (λ o. predates o ≡ true → o.kind ≢ revert) a.outcomes
  unfolding predated_reverts
  predated_reverts_exact jobs w =
      let a = adjudicate fromisoformat revert_map branch jobs in
      (
        omega (arith, get-predated_from w [] a.outcomes),
        dealt_predating (adjudicate-Deals fromisoformat revert_map branch jobs),
      )
