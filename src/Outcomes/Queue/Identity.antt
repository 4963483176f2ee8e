-- ===== src/Outcomes/Queue/Identity.antt =====
-- outcome_queue.py: who reads a repository's history, and when its jobs are censored instead.
use doug.Prelude.{
  ℕ, ◌≡◌, ◌≢◌, refl, ◌∙◌, sym, Bool, true, false, ◌&&◌, ◌||◌, Option, none, some, map, ◌==◌, nat_eq,
  string_eq, arith, any, any-true, All, In, Distinct, find?, find?-some, find?-unique, ◌⊎◌, not,
  Bool-cases, Option-cases, inl, inr,
}
use doug.Outcomes.Queue.{
  RepositoryKey, Installation, InstallationRepo, Ledger, covers, newest, live_registration,
  RepositoryIdentity, of_key, deleted, inactive, own_identity, or_successor, repository_identity,
}
use doug.Outcomes.Queue.Newest.{true-not_false, newest-none, IsNewest, newest-IsNewest}

-- The keys that `store` declares unique.
abbrev pub repo_key : InstallationRepo → ℕ × ℕ
repo_key r = (r.installation_id, r.github_repo_id)

pub record IsKeyed (l : Ledger) : Type 0 where
  pub installations_distinct : Distinct (map (λ i. i.installation_id) l.installations)
  pub repos_distinct : Distinct (map repo_key l.repos)

covers-active :
    (l : Ledger) (repo : ℕ) (r : InstallationRepo)
    → covers l repo r ≡ true
    → (r.github_repo_id ≡ repo)
      × ((r.state == "active") ≡ true)
      × (any (λ i. i.installation_id == r.installation_id && i.state == "active") l.installations
          ≡ true)
unfolding covers
covers-active l repo r h = ground arith

-- A registration of the key itself that covers the repository: nothing is permanent.
module _ (l : Ledger) (k : RepositoryKey) (keyed : IsKeyed l) (r : InstallationRepo)
    (m : In r l.repos) (own : r.installation_id ≡ k.installation_id)
    (c : covers l k.github_repo_id r ≡ true) where
  own-active : inactive (find? (of_key k) l.repos) ≡ false
  own-active =
      let (at_repo, active, under) = covers-active l k.github_repo_id r c in
      let test : of_key k r ≡ true = ground arith in
      rw
        (find?-unique repo_key (of_key k) l.repos keyed.repos_distinct (λ x y h g. same_key x y h g)
          m test)
        (rw active refl)
    where
      same_key :
          (x y : InstallationRepo) → of_key k x ≡ true → of_key k y ≡ true → repo_key x ≡ repo_key y
      same_key x y h g =
          let e : x.installation_id ≡ y.installation_id = ground arith in
          let f : x.github_repo_id ≡ y.github_repo_id = ground arith in cc

  own-not_deleted :
      deleted (find? (λ i. i.installation_id == k.installation_id) l.installations) ≡ false
  own-not_deleted =
      let (at_repo, active, under) = covers-active l k.github_repo_id r c in
      let (i, n, e) = any-true _ l.installations under in
      let test : (i.installation_id == k.installation_id) ≡ true = ground arith in
      let found =
        find?-unique (λ (x : Installation). x.installation_id)
          (λ x. x.installation_id == k.installation_id) l.installations keyed.installations_distinct
          (λ x y h g. ground arith) n test in
      let state : i.state ≡ "active" = (string_eq.same_iff i.state "active").0 (ground arith) in
      rw (found, state) refl

none≢some : {s : ℕ} → none ≢ some s
none≢some h = ground arith

own_identity-permanent :
    (l : Ledger) (k : RepositoryKey) (r : Option InstallationRepo) (p : Bool)
    → ((own_identity l k r p).permanent ≡ p) × ((own_identity l k r p).successor ≡ none)
own_identity-permanent l k none p = (refl, refl)
own_identity-permanent l k (some r) p = (refl, refl)

-- The installation's own row says that it is deleted, or the registration's that it is not active.
pub IsLost : Ledger → RepositoryKey → Type 0
IsLost l k =
    ((i : Installation) × In i l.installations
      × (i.installation_id ≡ k.installation_id)
      × (i.state ≡ "deleted"))
    ⊎ ((r : InstallationRepo) × In r l.repos
        × (r.installation_id ≡ k.installation_id)
        × (r.github_repo_id ≡ k.github_repo_id)
        × (r.state ≢ "active"))

deleted-IsLost :
    (l : Ledger) (k : RepositoryKey)
    → deleted (find? (λ i. i.installation_id == k.installation_id) l.installations) ≡ true
    → IsLost l k
unfolding IsLost
deleted-IsLost l k h =
    elim (Option-cases (find? (λ i. i.installation_id == k.installation_id) l.installations)) [
      | inl e ↦ absurd (true-not_false (rw e at h) refl)
      | inr (i, e) ↦
          let (m, own) = find?-some (λ i. i.installation_id == k.installation_id) _ e in
          let gone : (i.state == "deleted") ≡ true = rw e at h in
          inl (i, m, ground arith, (string_eq.same_iff i.state "deleted").0 gone)
    ]

inactive-IsLost :
    (l : Ledger) (k : RepositoryKey) → inactive (find? (of_key k) l.repos) ≡ true → IsLost l k
unfolding IsLost
inactive-IsLost l k h = elim (Option-cases (find? (of_key k) l.repos)) [
  | inl e ↦ absurd (true-not_false (rw e at h) refl)
  | inr (r, e) ↦
      let (m, own) = find?-some (of_key k) l.repos e in
      let idle : not (r.state == "active") ≡ true = rw e at h in
      inr (
        r,
        m,
        ground arith,
        ground arith,
        (λ q. let same = (string_eq.same_iff r.state "active").1 q in ground arith),
      )
]

censored-IsLost :
    (l : Ledger) (k : RepositoryKey) → (repository_identity l k).permanent ≡ true → IsLost l k
unfolding repository_identity
censored-IsLost l k h =
    let repo = find? (of_key k) l.repos in
    let gone = deleted (find? (λ i. i.installation_id == k.installation_id) l.installations) in
    elim (Bool-cases gone) [
      | inl e ↦ deleted-IsLost l k e
      | inr e ↦ elim (Bool-cases (inactive repo)) [
        | inl f ↦ inactive-IsLost l k f
        | inr f ↦
            let left : (own_identity l k repo false).permanent ≡ true = rw (e, f) at h in
            absurd (true-not_false left (own_identity-permanent l k repo false).0)
      ]
    ]

not_covered :
    (l : Ledger) (k : RepositoryKey)
    → IsKeyed l
    → (repository_identity l k).permanent ≡ true
    → All (λ r. covers l k.github_repo_id r ≡ false) l.repos
unfolding repository_identity or_successor live_registration
not_covered l k keyed h =
    let repo = find? (of_key k) l.repos in
    let gone = deleted (find? (λ i. i.installation_id == k.installation_id) l.installations) in
    elim (Option-cases (newest (covers l k.github_repo_id) l.repos)) [
      | inl e ↦ newest-none (covers l k.github_repo_id) l.repos e
      | inr (r, e) ↦
          let (m, c, top) = newest-IsNewest (covers l k.github_repo_id) l.repos r e in
          elim (Bool-cases (r.installation_id == k.installation_id)) [
            | inl own ↦
                let same : r.installation_id ≡ k.installation_id = ground arith in
                let a : inactive repo ≡ false = own-active l k keyed r m same c in
                let d : gone ≡ false = own-not_deleted l k keyed r m same c in
                let left : (own_identity l k repo false).permanent ≡ true = rw (d, a) at h in
                absurd (true-not_false left (own_identity-permanent l k repo false).0)
            | inr other ↦ elim (Bool-cases (gone || inactive repo)) [
              | inl p ↦ let left : false ≡ true = rw (p, e, other) at h in ground arith
              | inr p ↦
                  let left : (own_identity l k repo false).permanent ≡ true = rw p at h in
                  absurd (true-not_false left (own_identity-permanent l k repo false).0)
            ]
          ]
    ]

-- On tables that keep their unique keys, a repository's jobs are censored only where a row says that
-- the installation is deleted, or a row says that the registration of the key is not active, a
-- missing row being neither; and only where no active registration under an active installation
-- covers the repository, the key's own included.
pub censored-Unreachable :
    (l : Ledger) (k : RepositoryKey)
    → IsKeyed l
    → (repository_identity l k).permanent ≡ true
    → IsLost l k × All (λ r. covers l k.github_repo_id r ≡ false) l.repos
censored-Unreachable l k keyed h = (censored-IsLost l k h, not_covered l k keyed h)

-- Who reads the history in place of the key: the newest registration that covers the repository.
abbrev pub Succeeds : Ledger → RepositoryKey → ℕ → RepositoryIdentity → Type 0
Succeeds l k s identity =
    (r : InstallationRepo) × IsNewest (covers l k.github_repo_id) l.repos r
    × (r.installation_id ≡ s)
    × (s ≢ k.installation_id)
    × (identity.name ≡ some r.full_name)
    × (identity.permanent ≡ false)

-- A successor is named only where another installation holds the newest active registration of the
-- repository under an active installation; then its name is used, and nothing is censored.
pub successor-Succeeds :
    (l : Ledger) (k : RepositoryKey) (s : ℕ)
    → (repository_identity l k).successor ≡ some s
    → Succeeds l k s (repository_identity l k)
unfolding repository_identity or_successor live_registration
successor-Succeeds l k s h =
    let repo = find? (of_key k) l.repos in
    let p =
      deleted (find? (λ i. i.installation_id == k.installation_id) l.installations)
      || inactive repo in
    elim (Bool-cases p) [
      | inr e ↦
          let left : (own_identity l k repo false).successor ≡ some s = rw e at h in
          absurd (none≢some (sym (own_identity-permanent l k repo false).1 ∙ left))
      | inl e ↦ elim (Option-cases (newest (covers l k.github_repo_id) l.repos)) [
        | inl f ↦
            let left : (own_identity l k repo true).successor ≡ some s = rw (e, f) at h in
            absurd (none≢some (sym (own_identity-permanent l k repo true).1 ∙ left))
        | inr (r, f) ↦ elim (Bool-cases (r.installation_id == k.installation_id)) [
          | inl g ↦
              let left : (own_identity l k repo true).successor ≡ some s = rw (e, f, g) at h in
              absurd (none≢some (sym (own_identity-permanent l k repo true).1 ∙ left))
          | inr g ↦
              let it : some r.installation_id ≡ some s = rw (e, f, g) at h in
              let same : r.installation_id ≡ s = cc in
              (
                r,
                newest-IsNewest (covers l k.github_repo_id) l.repos r f,
                same,
                ground arith,
                rw (e, f, g) refl,
                rw (e, f, g) refl,
              )
        ]
      ]
    ]
