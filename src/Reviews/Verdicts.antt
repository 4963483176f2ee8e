-- ===== src/Reviews/Verdicts.antt =====
-- store.py: the verdicts that a review worker looks up and saves, and what other processes commit.
use doug.Prelude.{
  ℕ, suc, Bool, ◌&&◌, not, Option, none, some, List, [], ◌∷◌, any, ◌==◌, nat_eq, string_eq,
  option_eq, leb, if◌then◌else◌, find?,
}
use doug.Ingest.{Job}
use doug.Ingest.Op.{apply}
use doug.Reviews.Rows.{
  Verdict, Tables, Act, queue_act, review_act, stance_act, Scored, scored, external, is_external,
}

-- The four columns by which App verdicts are told apart; a stance of a person is no read of Doug's.
unfoldable pub identifies : Job → Verdict → Bool
identifies job v =
    v.installation_id == some job.installation_id
    && v.github_repo_id == some job.github_repo_id
    && v.pr_number == job.pr_number
    && v.head_sha == some job.head_sha
    && not (is_external v.tier)

-- `ORDER BY id DESC LIMIT 1`.
abbrev pub latest_of : Verdict → Option Verdict → Verdict
latest_of v none = v
latest_of v (some w) = if leb w.id v.id then v else w

unfoldable pub latest : (Verdict → Bool) → List Verdict → Option Verdict
latest test [] = none
latest test (v ∷ vs) = let rest = latest test vs in if test v then some (latest_of v rest) else rest

unfoldable pub find_verdict_by_identity : Job → List Verdict → Option Verdict
unfolding latest identifies
find_verdict_by_identity job = latest (identifies job)

abbrev pub find_verdict_by_id : ℕ → List Verdict → Option Verdict
find_verdict_by_id id = find? (λ v. v.id == id)

-- What `save_review` answers, `created` told apart from the id of a peer's row.
pub data Saved : Type 0 where
  created : ℕ → Saved
  peer : ℕ → Saved
  not_saved : Saved

unfoldable pub review_row : Job → Scored → ℕ → Verdict
review_row job tier id = record {
  id = id;
  repo = job.repo_full_name;
  pr_number = job.pr_number;
  tier = scored tier;
  github_repo_id = some job.github_repo_id;
  installation_id = some job.installation_id;
  head_sha = some job.head_sha;
  source = some "app";
}

-- The partial unique index of migration 005.
unfoldable pub is_taken : Job → List Verdict → Bool
unfolding identifies
is_taken job vs = any (identifies job) vs

abbrev pub saved_by_peer : Option Verdict → Saved
saved_by_peer none = not_saved
saved_by_peer (some v) = peer v.id

-- A collision rolls the insert back; the sequence that numbers the rows moves on.
unfoldable pub save_review : Job → Scored → Tables → Saved × Tables
unfolding is_taken review_row find_verdict_by_identity
save_review job tier t =
    if is_taken job t.verdicts
    then (
      saved_by_peer (find_verdict_by_identity job t.verdicts),
      record t { next_verdict = suc t.next_verdict },
    )
    else (
      created t.next_verdict,
      record t {
        verdicts = review_row job tier t.next_verdict ∷ t.verdicts;
        next_verdict = suc t.next_verdict;
      },
    )

-- The insert of `save_external_review`.
unfoldable pub save_stance : Verdict → Tables → Tables
save_stance v t = record t {
  verdicts = record v { id = t.next_verdict; tier = external } ∷ t.verdicts;
  next_verdict = suc t.next_verdict;
}

unfoldable pub act_on : Act → Tables → Tables
unfolding save_review save_stance apply
act_on (queue_act op) t = record t { queue = apply op t.queue }
act_on (review_act job tier) t = (save_review job tier t).1
act_on (stance_act v) t = save_stance v t

unfoldable pub perform : List Act → Tables → Tables
unfolding act_on
perform [] t = t
perform (a ∷ acts) t = perform acts (act_on a t)
