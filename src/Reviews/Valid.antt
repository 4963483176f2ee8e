-- ===== src/Reviews/Valid.antt =====
-- worker.py over ingest.py and store.py: what holds of the tables, whatever workers, webhooks and
-- people commit between an attempt's transactions, and what no transaction undoes.
use doug.Prelude.{
  ℕ, suc, ◌<◌, ◌≡◌, ◌≢◌, refl, ap, sym, ◌∙◌, true, false, some, List, [], ◌∷◌, map, nat_eq,
  string_eq, option_eq, option_beq_iff, arith, any, All, All-map, All-map_at, any_same, nat_beq_iff,
  In, there, Distinct, Bool-cases, inl, inr,
}
use doug.Ingest.{Job, done}
use doug.Ingest.Invariant.{IsValid, apply-IsValid}
use doug.Ingest.Fencing.Advance.{row_at, Follows, run-Follows}
use doug.Ingest.Op.{run}
use doug.Reviews.{
  Verdict, Tables, Act, queue_act, review_act, stance_act, Scored, external, is_external,
  identifies, is_taken, review_row, save_review, save_stance, act_on,
}
use doug.Reviews.Trace.{Traced, stay, by_act}

-- At most one verdict is a read of a given commit.
abbrev pub OneEach : List Verdict → Type 0
OneEach [] = Unit
OneEach (v ∷ vs) =
    ((job : Job) → identifies job v ≡ true → any (identifies job) vs ≡ false) × OneEach vs

pub record AreValid (t : Tables) : Type 0 where
  pub queue_valid : IsValid t.queue
  pub verdicts_below : All (λ v. v.id < t.next_verdict) t.verdicts
  pub verdicts_distinct : Distinct (map (λ v. v.id) t.verdicts)
  pub one_each : OneEach t.verdicts

-- What `identifies` reads of a verdict.
pub identifies-columns :
    (job : Job) (v : Verdict)
    → identifies job v ≡ true
    → (v.installation_id ≡ some job.installation_id)
      × (v.github_repo_id ≡ some job.github_repo_id)
      × (v.pr_number ≡ job.pr_number)
      × (v.head_sha ≡ some job.head_sha)
      × (is_external v.tier ≡ false)
unfolding identifies
identifies-columns job v h = ground (
  arith,
  option_beq_iff v.installation_id (some job.installation_id),
  option_beq_iff v.github_repo_id (some job.github_repo_id),
  option_beq_iff v.head_sha (some job.head_sha),
)

-- Two jobs that one verdict is a read for have one identity.
pub identifies_same :
    (job other : Job) (v : Verdict)
    → identifies job v ≡ true
    → identifies other v ≡ true
    → (w : Verdict) → identifies other w ≡ identifies job w
unfolding identifies
identifies_same job other v h k w =
    let (a, b, c, d, e) = identifies-columns job v h in
    let (a', b', c', d', e') = identifies-columns other v k in
    let i : some other.installation_id ≡ some job.installation_id = sym a' ∙ a in
    let r : some other.github_repo_id ≡ some job.github_repo_id = sym b' ∙ b in
    let n : other.pr_number ≡ job.pr_number = sym c' ∙ c in
    let s : some other.head_sha ≡ some job.head_sha = sym d' ∙ d in rw (i, r, n, s) refl

insert-AreValid :
    (v : Verdict) (t : Tables)
    → v.id ≡ t.next_verdict
    → ((job : Job) → identifies job v ≡ true → any (identifies job) t.verdicts ≡ false)
    → AreValid t
    → AreValid (record t { verdicts = v ∷ t.verdicts; next_verdict = suc t.next_verdict })
insert-AreValid v t new alone h = record {
  queue_valid = h.queue_valid;
  verdicts_below = (omega arith, All-map_at (λ w b. omega arith) t.verdicts h.verdicts_below);
  verdicts_distinct = (
    All-map _ (λ w. w.id) _ (All-map_at (λ w b. omega arith) t.verdicts h.verdicts_below),
    h.verdicts_distinct,
  );
  one_each = (alone, h.one_each);
}

skip-AreValid :
    (t : Tables) → AreValid t → AreValid (record t { next_verdict = suc t.next_verdict })
skip-AreValid t h = record {
  queue_valid = h.queue_valid;
  verdicts_below = All-map_at (λ w b. omega arith) t.verdicts h.verdicts_below;
  verdicts_distinct = h.verdicts_distinct;
  one_each = h.one_each;
}

-- A new row is a read for the job that saved it.
pub review_row-identifies :
    (job : Job) (tier : Scored) (id : ℕ) → identifies job (review_row job tier id) ≡ true
unfolding identifies review_row
review_row-identifies job tier id = ground (
  arith,
  nat_beq_iff job.installation_id job.installation_id,
  nat_beq_iff job.github_repo_id job.github_repo_id,
  nat_beq_iff job.pr_number job.pr_number,
  string_eq.same_iff job.head_sha job.head_sha,
)

-- An insert that the index lets through is the only read of its commit.
review_row-alone :
    (job : Job) (tier : Scored) (id : ℕ) (vs : List Verdict)
    → is_taken job vs ≡ false
    → (other : Job) → identifies other (review_row job tier id) ≡ true
    → any (identifies other) vs ≡ false
unfolding is_taken review_row
review_row-alone job tier id vs free other h =
    let (a, b, c, d, e) = identifies-columns other (review_row job tier id) h in
    let read : identifies job (review_row job tier id) ≡ true = review_row-identifies job tier id in
    any_same (identifies other) (identifies job)
      (identifies_same job other (review_row job tier id) read h) vs
    ∙ free

-- A person's stance is no read of a commit.
stance-unidentified :
    (job : Job) (id : ℕ) (v : Verdict)
    → identifies job (record v { id = id; tier = external }) ≢ true
unfolding identifies
stance-unidentified job id v h = ground arith

act_on-AreValid : (a : Act) (t : Tables) → AreValid t → AreValid (act_on a t)
unfolding act_on save_review save_stance
act_on-AreValid (queue_act op) t h = record {
  queue_valid = apply-IsValid op t.queue h.queue_valid;
  verdicts_below = h.verdicts_below;
  verdicts_distinct = h.verdicts_distinct;
  one_each = h.one_each;
}
act_on-AreValid (review_act job tier) t h = elim (Bool-cases (is_taken job t.verdicts)) [
  | inl e ↦ rw (e, act_on) (skip-AreValid t h)
  | inr e ↦
      rw (e, act_on)
        (insert-AreValid (review_row job tier t.next_verdict) t refl
          (review_row-alone job tier t.next_verdict t.verdicts e) h)
]
act_on-AreValid (stance_act v) t h =
    insert-AreValid (record v { id = t.next_verdict; tier = external }) t refl
      (λ job e. absurd (stance-unidentified job t.next_verdict v e)) h

pub Traced-AreValid : {t u : Tables} → Traced t u → AreValid t → AreValid u
Traced-AreValid stay h = h
Traced-AreValid {t} (by_act a g) h = Traced-AreValid g (act_on-AreValid a t h)

-- A verdict stays where it is.
act_on-In : (a : Act) (t : Tables) (v : Verdict) → In v t.verdicts → In v (act_on a t).verdicts
unfolding act_on save_review save_stance
act_on-In (queue_act op) t v m = m
act_on-In (review_act job tier) t v m = elim (Bool-cases (is_taken job t.verdicts)) [
  | inl e ↦ rw (e, act_on) m
  | inr e ↦ rw (e, act_on) (there m)
]
act_on-In (stance_act w) t v m = there m

-- What a posted check run rests on: a finished job with that verdict, and the verdict a read of the
-- job's commit.
abbrev pub Published : Tables → Job → ℕ → Type 0
Published t job id =
    ((k : Job) × (row_at job.id t.queue ≡ some k) × (k.status ≡ done) × (k.verdict_id ≡ some id))
    × ((v : Verdict) × In v t.verdicts × (v.id ≡ id) × (identifies job v ≡ true))

-- Only a transaction of the queue moves it.
save_review-queue :
    (job : Job) (tier : Scored) (t : Tables) → (save_review job tier t).1.queue ≡ t.queue
unfolding save_review
save_review-queue job tier t = elim (Bool-cases (is_taken job t.verdicts)) [
  | inl e ↦ rw (e, save_review) refl
  | inr e ↦ rw (e, save_review) refl
]

act_on-Follows :
    (a : Act) (t : Tables) (id : ℕ) → IsValid t.queue → Follows id t.queue (act_on a t).queue
unfolding act_on run save_stance
act_on-Follows (queue_act op) t id h = run-Follows (op ∷ []) id t.queue h
act_on-Follows (review_act job tier) t id h =
    rw (save_review-queue job tier t) (run-Follows [] id t.queue h)
act_on-Follows (stance_act v) t id h = run-Follows [] id t.queue h

act_on-Published :
    (a : Act) (t : Tables) (job : Job) (id : ℕ)
    → AreValid t
    → Published t job id
    → Published (act_on a t) job id
act_on-Published a t job id h ((k, found, finished, its), (v, m, same, read)) =
    let (j, found', advance) = act_on-Follows a t job.id h.queue_valid k found in
    let final = advance.done_is_final finished in
    (
      (
        j,
        found',
        ap (λ (x : Job). x.status) final ∙ finished,
        ap (λ (x : Job). x.verdict_id) final ∙ its,
      ),
      (v, act_on-In a t v m, same, read),
    )

pub Traced-Published :
    {t u : Tables} (job : Job) (id : ℕ)
    → Traced t u
    → AreValid t
    → Published t job id
    → Published u job id
Traced-Published job id stay h p = p
Traced-Published {t} job id (by_act a g) h p =
    Traced-Published job id g (act_on-AreValid a t h) (act_on-Published a t job id h p)

pub Traced-In : {t u : Tables} → Traced t u → (v : Verdict) → In v t.verdicts → In v u.verdicts
Traced-In stay v m = m
Traced-In {t} (by_act a g) v m = Traced-In g v (act_on-In a t v m)
