-- ===== src/Ingest/Fencing.antt =====
-- ingest.py: the claim generation fences a holder whose lease was reclaimed, and a finished review
-- is final.
pub mod Advance
pub mod Holder
use doug.Prelude.{
  ℕ, ◌<◌, ◌≡◌, refl, sym, ap, ◌∙◌, Bool, true, Option, some, List, arith, find?-update_where,
  any-true, inl, inr, ◌==◌, nat_eq,
}
use doug.Ingest.Op.{Op, claim_op, complete_op, apply, run}
use doug.Ingest.Invariant.{IsValid, apply-IsValid, run-IsValid}
use doug.Ingest.{Job, Queue, done, claim, terminal_where, terminal, complete, complete_row}
use Advance.{row_at, run-Follows}
use Holder.{IsFenced, Unheld, row_at-In, unheld-IsFenced, claim-Holds, claim-bumps}

-- When a row is claimed, anything happens to the table, and a second `claim` hands out the same
-- row, the second holder has the later generation; and from then on, after any further
-- transactions, the first holder's release, complete, supersede and fail all answer that the claim
-- is lost and change nothing.
pub stale_claim-IsFenced :
    (now now' : ℕ) (ops ops' : List Op) (q : Queue) (c c' : Job)
    → IsValid q
    → (claim now q).0 ≡ some c
    → (claim now' (run ops (claim now q).1)).0 ≡ some c'
    → c'.id ≡ c.id
    → (c.claim_generation < c'.claim_generation)
      × IsFenced c.id c.claim_generation (run ops' (claim now' (run ops (claim now q).1)).1)
unfolding apply
stale_claim-IsFenced now now' ops ops' q c c' v h h' same =
    let v₁ : IsValid (claim now q).1 = apply-IsValid (claim_op now) q v in
    let q₂ = run ops (claim now q).1 in
    let v₂ : IsValid q₂ = run-IsValid ops (claim now q).1 v₁ in
    let v₃ : IsValid (claim now' q₂).1 = apply-IsValid (claim_op now') q₂ v₂ in
    let (j₁, at₁, g₁, s₁) = claim-Holds now q c v h in
    let (j₂, at₂, a) = run-Follows ops c.id (claim now q).1 v₁ j₁ at₁ in
    let (j₂', at₂', g₂) = claim-bumps now' q₂ c' v₂ h' in
    let met : j₂' ≡ j₂ = cc in
    let met_generation = ap (λ (j : Job). j.claim_generation) met in
    let (j₃, at₃, g₃, s₃) = claim-Holds now' q₂ c' v₂ h' in
    let at₃' : row_at c.id (claim now' q₂).1 ≡ some j₃ = rw same at at₃ in
    let (j₄, at₄, b) = run-Follows ops' c.id (claim now' q₂).1 v₃ j₃ at₃' in
    let later : c.claim_generation < c'.claim_generation = omega arith in
    (
      later,
      unheld-IsFenced (run ops' (claim now' q₂).1) c.id c.claim_generation j₄
          (run-IsValid ops' (claim now' q₂).1 v₃) at₄ (inr (omega arith)),
    )

pub complete-row_at :
    (id : ℕ) (verdict_id : Option ℕ) (generation : ℕ) (owes : Bool) (now : ℕ) (q : Queue)
    → IsValid q
    → (complete id verdict_id generation owes now q).0 ≡ true
    → (k : Job) × (row_at id (complete id verdict_id generation owes now q).1 ≡ some k)
      × (k.status ≡ done)
      × (k.verdict_id ≡ verdict_id)
unfolding complete terminal complete_row
complete-row_at id verdict_id generation owes now q v h =
    let (j, m, p) = any-true (terminal_where id generation) q.rows h in
    let same : j.id ≡ id = unfold terminal_where in ground arith in
    let old : row_at id q ≡ some j = rw (← same) (row_at-In q v j m) in
    (
      complete_row verdict_id owes now j,
      rw p at (
          find?-update_where (λ i. i.id == id) (terminal_where id generation)
            (complete_row verdict_id owes now) (λ i. refl) q.rows old),
      refl,
      refl,
    )

-- Once `complete` has marked a job done, then after any transactions the job is still there, done
-- and with that verdict, and every call that would end a claim on it, of any generation, answers
-- that the claim is lost and changes nothing: a review is finished once.
pub complete_is_final :
    (id : ℕ) (verdict_id : Option ℕ) (generation : ℕ) (owes : Bool) (now : ℕ) (ops : List Op)
    (q : Queue)
    → IsValid q
    → (complete id verdict_id generation owes now q).0 ≡ true
    → let r = run ops (complete id verdict_id generation owes now q).1 in
      (k : Job) × (row_at id r ≡ some k)
      × (k.status ≡ done)
      × (k.verdict_id ≡ verdict_id)
      × ((other : ℕ) → IsFenced id other r)
unfolding apply
complete_is_final id verdict_id generation owes now ops q v h =
    let q₁ = (complete id verdict_id generation owes now q).1 in
    let v₁ : IsValid q₁ = apply-IsValid (complete_op id verdict_id generation owes now) q v in
    let (j, at₁, finished, its_verdict) = complete-row_at id verdict_id generation owes now q v h in
    let (k, at₂, a) = run-Follows ops id q₁ v₁ j at₁ in
    let same = a.done_is_final finished in
    let still : k.status ≡ done = ap (λ (t : Job). t.status) same ∙ finished in
    (
      k,
      at₂,
      still,
      ap (λ (t : Job). t.verdict_id) same ∙ its_verdict,
      λ other.
          unheld-IsFenced (run ops q₁) id other k (run-IsValid ops q₁ v₁) at₂ (inl (ground arith)),
    )
