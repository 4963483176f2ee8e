-- ===== src/Reviews/Lookup.antt =====
-- store.py: what a lookup of a commit's verdict finds, now and after any transactions.
use doug.Prelude.{
  ℕ, ◌≡◌, ◌≢◌, refl, Bool, true, none, some, List, [], ◌∷◌, nat_eq, arith, In, there, here,
  Bool-cases, Option-cases, inl, inr, if◌then◌else◌, leb,
}
use mathlib.Core.Path.{subst}
use doug.Ingest.{Job}
use doug.Reviews.{Verdict, Tables, identifies, latest, latest_of, find_verdict_by_identity}
use doug.Reviews.Trace.{Traced}
use doug.Reviews.Valid.{Traced-In}
use doug.Reviews.Events.{Recorded}

latest-some :
    (test : Verdict → Bool) (vs : List Verdict) (v : Verdict)
    → latest test vs ≡ some v
    → In v vs × (test v ≡ true)
unfolding latest
latest-some test [] v h = ground arith
latest-some test (w ∷ vs) v h = elim (Bool-cases (test w)) [
  | inr e ↦ let (m, f) = latest-some test vs v (rw e at h) in (there m, f)
  | inl e ↦ elim (Option-cases (latest test vs)) [
    | inl g ↦
        let it : some w ≡ some v = rw (e, g) at h in
        let same : w ≡ v = cc in subst (λ x. In x (w ∷ vs) × (test x ≡ true)) same (here, e)
    | inr (u, g) ↦
        let (m, f) = latest-some test vs u g in
        let it : some (if leb u.id w.id then w else u) ≡ some v = rw (e, g) at h in
        elim (Bool-cases (leb u.id w.id)) [
          | inl b ↦
              let kept : some w ≡ some v = rw b at it in
              let same : w ≡ v = cc in subst (λ x. In x (w ∷ vs) × (test x ≡ true)) same (here, e)
          | inr b ↦
              let kept : some u ≡ some v = rw b at it in
              let same : u ≡ v = cc in
              subst (λ x. In x (w ∷ vs) × (test x ≡ true)) same (there m, f)
        ]
  ]
]

pub found-Recorded :
    (job : Job) (t : Tables) (v : Verdict)
    → find_verdict_by_identity job t.verdicts ≡ some v
    → Recorded t job v.id
unfolding find_verdict_by_identity
found-Recorded job t v h =
    let (m, e) = latest-some (identifies job) t.verdicts v h in (v, m, refl, e)

-- A table that has a row which passes the test answers one.
latest-found :
    (test : Verdict → Bool) (vs : List Verdict) (v : Verdict)
    → In v vs
    → test v ≡ true
    → latest test vs ≢ none
unfolding latest
latest-found test [] v m e h = elim m [ ]
latest-found test (w ∷ vs) v here e h = ground arith
latest-found test (w ∷ vs) v (there m) e h = elim (Bool-cases (test w)) [
  | inl f ↦ let lost : some (latest_of w (latest test vs)) ≡ none = rw f at h in ground arith
  | inr f ↦ latest-found test vs v m e (rw f at h)
]

pub found-after :
    (job : Job) (id : ℕ) {t u : Tables}
    → Recorded t job id
    → Traced t u
    → (v : Verdict) × (find_verdict_by_identity job u.verdicts ≡ some v)
unfolding find_verdict_by_identity
found-after job id {u = u} (v, m, same, read) g =
    elim (Option-cases (latest (identifies job) u.verdicts)) [
      | inl e ↦ absurd (latest-found (identifies job) u.verdicts v (Traced-In g v m) read e)
      | inr found ↦ found
    ]
