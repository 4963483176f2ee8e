-- ===== src/Ingest/Tests.antt =====
-- Runs of the review queue, and its theorems at concrete tables.
use doug.Prelude.{
  ℕ, ◌≡◌, refl, true, some, none, List, [], ◌∷◌, map, All, count_if, ◌+◌, ◌<◌, ◌⊎◌, false, Option,
  In, codes,
}
use doug.Ingest.Op.{Op, admit_op, claim_op, reclaim_op, fail_op, apply, run}
use doug.Ingest.Invariant.{IsValid, run-IsValid, empty-IsValid}
use doug.Ingest.Fencing.{stale_claim-IsFenced, complete_is_final}
use doug.Ingest.Fencing.Advance.{row_at}
use doug.Ingest.Fencing.Holder.{IsFenced}
use doug.Prelude.{Each}
use doug.Ingest.Claims.{
  IsTakenBack, Oldest, Charged, claim_serves-Oldest, reclaim_stalled_exact, fail_charges,
}
use doug.Ingest.Admission.{Admitted, IsQueuedFor, GivesWay, enqueue_answers, admit-supersedes}
use doug.Ingest.Cooloff.{Cools, hold_explains_refusal}
use doug.Ingest.{
  pending, done, failed, superseded, Job, Delivery, Queue, reconcile, live, empty, new_job,
  claim_row, reclaim_row, admit, claim, reclaim_stalled, stalled, complete, fail, max_attempts,
  job_filter, ok, value_error, enqueue, collides, revive, cooloff_hold_remaining, is_pending,
  is_running, supersede_row, overtaken, terminal_where, fail_row,
}

-- `apply`, whose line opens everything that a run computes with.
run_open : Op → Queue → Queue
unfolding run admit claim revive reclaim_stalled complete fail collides job_filter new_job overtaken
    supersede_row claim_row reclaim_row stalled terminal_where fail_row cooloff_hold_remaining
run_open = apply

abbrev first_push : Delivery
first_push = record {
  installation_id = 1;
  github_repo_id = 7;
  repo_full_name = "acme/app";
  pr_number = 42;
  head_sha = "aaa";
  base_sha = "base";
}

abbrev second_push : Delivery
second_push = record first_push { head_sha = "bbb" }

abbrev pushes : List Op
pushes = admit_op first_push 10 ∷ admit_op second_push 20 ∷ []

abbrev pushed : Queue
pushed = run pushes empty

-- The second push supersedes the first.
newest_waits : map (λ j. j.status) pushed.rows ≡ pending ∷ superseded ∷ []
unfolding run_open
newest_waits = refl

-- Three failed attempts end in `failed`.
abbrev burned : Queue
burned =
    run
      (admit_op first_push 10
        ∷ claim_op 20
        ∷ fail_op 1 (codes "boom") 1 30
        ∷ claim_op 40
        ∷ fail_op 1 (codes "boom") 2 50
        ∷ claim_op 60
        ∷ fail_op 1 (codes "boom") 3 70
        ∷ [])
      empty

burned_out : map (λ j. j.status) burned.rows ≡ failed ∷ []
unfolding run_open
burned_out = refl

pushed-IsValid : IsValid pushed
pushed-IsValid = run-IsValid pushes empty empty-IsValid

run-IsValid_example : IsValid burned
run-IsValid_example = run-IsValid _ empty empty-IsValid

abbrev alone : Queue
alone = run (admit_op first_push 10 ∷ []) empty

alone-IsValid : IsValid alone
alone-IsValid = run-IsValid (admit_op first_push 10 ∷ []) empty empty-IsValid

-- The first holder's claim, and the second's, a lease later.
abbrev held : Job
held = claim_row 20 (new_job first_push 10 1)

abbrev held_again : Job
held_again = claim_row 2_000_000_000 (reclaim_row 1_000_000_000 held)

first_claim : (claim 20 alone).0 ≡ some held
unfolding run_open
first_claim = refl

second_claim :
    (claim 2_000_000_000 (run (reclaim_op 900 1_000_000_000 ∷ []) (claim 20 alone).1)).0
    ≡ some held_again
unfolding run_open
second_claim = refl

stale_claim-IsFenced_example :
    (held.claim_generation < held_again.claim_generation)
    × IsFenced held.id held.claim_generation (
        run [] (claim 2_000_000_000 (run (reclaim_op 900 1_000_000_000 ∷ []) (claim 20 alone).1)).1)
stale_claim-IsFenced_example =
    stale_claim-IsFenced 20 2_000_000_000 (reclaim_op 900 1_000_000_000 ∷ []) [] alone held
      held_again alone-IsValid first_claim second_claim
      (unfold claim_row new_job reclaim_row in refl)

abbrev claimed : Queue
claimed = run (admit_op first_push 10 ∷ claim_op 20 ∷ []) empty

claimed-IsValid : IsValid claimed
claimed-IsValid = run-IsValid _ empty empty-IsValid

complete_is_final_example :
    let r =
      run (admit_op first_push 40 ∷ claim_op 50 ∷ []) (complete 1 (some 9) 1 true 30 claimed).1 in
    (k : Job) × (row_at 1 r ≡ some k)
    × (k.status ≡ done)
    × (k.verdict_id ≡ some 9)
    × ((other : ℕ) → IsFenced 1 other r)
unfolding run_open
complete_is_final_example =
    complete_is_final 1 (some 9) 1 true 30 (admit_op first_push 40 ∷ claim_op 50 ∷ []) claimed
      claimed-IsValid refl

claim_serves-Oldest_example :
    (All (λ k. is_pending k.status ≡ false) pushed.rows × (claim 30 pushed ≡ (none, pushed)))
    ⊎ ((row : Job) × Oldest row pushed.rows
        × ((claim 30 pushed).0 ≡ some (claim_row 30 row))
        × (row_at row.id (claim 30 pushed).1 ≡ some (claim_row 30 row)))
claim_serves-Oldest_example = claim_serves-Oldest 30 pushed pushed-IsValid

reclaim_stalled_exact_example :
    Each
      (IsTakenBack 900 1_000_000_000)
      claimed.rows
      (reclaim_stalled 900 1_000_000_000 claimed).1.rows
    × (count_if (λ j. is_running j.status) (reclaim_stalled 900 1_000_000_000 claimed).1.rows
          + (reclaim_stalled 900 1_000_000_000 claimed).0
        ≡ count_if (λ j. is_running j.status) claimed.rows)
    × All
        (λ j. stalled 900 1_000_000_000 j ≡ false)
        (reclaim_stalled 900 1_000_000_000 claimed).1.rows
reclaim_stalled_exact_example = reclaim_stalled_exact 900 1_000_000_000 claimed

fail_charges_example :
    (j : Job) × (row_at 1 claimed ≡ some j)
    × (k : Job) × (row_at 1 (fail 1 (codes "boom") 1 max_attempts 30 claimed).1 ≡ some k)
    × Charged j 30 k
unfolding run_open
fail_charges_example = fail_charges 1 (codes "boom") 1 30 claimed claimed-IsValid refl

enqueue_answers_example :
    ((second_push.base_sha ≡ "") × (enqueue second_push live 40 50 pushed ≡ (value_error, pushed)))
    ⊎ ((id : Option ℕ) × ((enqueue second_push live 40 50 pushed).0 ≡ ok id)
        × Admitted second_push live 50 pushed id (enqueue second_push live 40 50 pushed).1)
enqueue_answers_example = enqueue_answers second_push live 40 50 pushed pushed-IsValid

admit-supersedes_example :
    ((new : Job) × (older : List Job) × ((admit second_push 20 alone).1.rows ≡ new ∷ older)
      × (new.id ≡ 2)
      × IsQueuedFor second_push new
      × Each (GivesWay second_push 20) alone.rows older)
    × All
        (λ k. job_filter second_push k ≡ true → k.status ≡ pending → k.head_sha ≡ "bbb")
        (admit second_push 20 alone).1.rows
unfolding run_open
admit-supersedes_example = admit-supersedes second_push 20 alone 2 refl

hold_explains_refusal_example :
    ((j : Job) × In j burned.rows × (collides first_push j ≡ true) × Cools 1_000_000_070 2600 j)
    × ((revive first_push reconcile 1_000_000_070 burned).0 ≡ none)
    × (id : ℕ) × ((revive first_push live 1_000_000_070 burned).0 ≡ some id)
unfolding run_open
hold_explains_refusal_example =
    hold_explains_refusal first_push 1_000_000_070 2600 burned run-IsValid_example refl
