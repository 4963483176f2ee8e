-- ===== src/Outcomes/Queue/Dictionaries.antt =====
-- outcome_queue.py: the identities of outcomes, and the dictionaries that `settle_batch` keys by them.
use doug.Prelude.{
  ℕ, String, Bool, ◌&&◌, ◌||◌, not, Option, none, some, List, [], ◌∷◌, ◌==◌, nat_eq, string_eq,
  if◌then◌else◌, any, all,
}
use doug.Outcomes.Rows.{OutcomeJob, Outcome}

-- `_identity`: what names one outcome of one merge.
abbrev pub Identity : Type 0
Identity = ℕ × String × ℕ

abbrev pub same_identity : Identity → Identity → Bool
same_identity (p, s, w) (q, t, v) = p == q && s == t && w == v

abbrev pub identity : OutcomeJob → Identity
identity j = (j.pr_number, j.merge_commit_sha, j.window_days)

abbrev pub outcome_identity : Outcome → Identity
outcome_identity o = (o.pr_number, o.merge_commit_sha, o.window_days)

-- A dictionary built from a list of pairs: a later value replaces an earlier one in its place.
unfoldable pub put {ℓ} : {V : Type ℓ} → Identity → V → List (Identity × V) → List (Identity × V)
put k v [] = (k, v) ∷ []
put k v ((j, w) ∷ rest) = if same_identity j k then (k, v) ∷ rest else (j, w) ∷ put k v rest

unfoldable pub dict_from {ℓ} :
    {A V : Type ℓ} → (A → Identity) → (A → V) → List (Identity × V) → List A → List (Identity × V)
unfolding put
dict_from key value dict [] = dict
dict_from key value dict (x ∷ xs) = dict_from key value (put (key x) (value x) dict) xs

abbrev pub lookup {ℓ} : {V : Type ℓ} → Identity → List (Identity × V) → Option V
lookup k [] = none
lookup k ((j, v) ∷ rest) = let r = lookup k rest in if same_identity j k then some v else r

abbrev pub has_key {ℓ} : {V : Type ℓ} → List (Identity × V) → Identity → Bool
has_key dict k = any (λ e. same_identity e.0 k) dict

-- `set(jobs) == set(classified) | set(refused)`, and the two share no key.
unfoldable pub accounts_for {ℓ κ} :
    {U : Type ℓ} {V : Type κ}
    → List (Identity × OutcomeJob)
    → List (Identity × U)
    → List (Identity × V)
    → Bool
accounts_for jobs classified refused =
    all (λ e. has_key classified e.0 || has_key refused e.0) jobs
    && all (λ e. has_key jobs e.0) classified
    && all (λ e. has_key jobs e.0) refused
    && all (λ e. not (has_key refused e.0)) classified
