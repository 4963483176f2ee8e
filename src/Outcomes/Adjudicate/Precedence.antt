-- ===== src/Outcomes/Adjudicate/Precedence.antt =====
-- adjudicate.py: the disposition of one job, by the precedence attribution, censoring, clean.
use mathlib.Core.Bool.{false≢true}
use doug.Prelude.{
  ℕ, ◌≤◌, String, ◌≡◌, refl, ◌≢◌, ◌↔◌, inl, inr, Bool, true, false, Option, none, some, arith,
  string_eq, Bool-cases, if◌then◌else◌, sym, ◌∙◌,
}
use doug.Prelude.Int.{ℤ, pos, ◌+ℤ◌, ◌-ℤ◌, ◌≤ℤ◌, int_laws}
use doug.Outcomes.Rows.{
  OutcomeJob, OutcomeKind, revert, clean, censored, CensorReason, unreachable, days, tolerance_days,
}
use doug.Outcomes.Adjudicate.{
  as_utc, window_starts_at, window_ends_at, in_window, without_revert, disposition,
}

-- The attributed revert lies between one day before the merge and the end of the window.
pub record RevertedInTime (job : OutcomeJob) (revert_instant : Option ℤ) : Type 0 where
  pub at : ℤ
  pub attributed : revert_instant ≡ some at
  pub not_before : as_utc job.merged_at -ℤ pos (days tolerance_days) ≤ℤ at
  pub not_after : at ≤ℤ as_utc job.merged_at +ℤ pos (days job.window_days)

in_window→RevertedInTime :
    (job : OutcomeJob) (r : Option ℤ)
    → in_window (window_starts_at job) (window_ends_at job) r ≡ true
    → RevertedInTime job r
unfolding in_window window_starts_at window_ends_at
in_window→RevertedInTime job none h = ground arith
in_window→RevertedInTime job (some t) h = record {
  at = t;
  attributed = refl;
  not_before = ground arith;
  not_after = ground arith;
}

RevertedInTime→in_window :
    (job : OutcomeJob) (r : Option ℤ)
    → RevertedInTime job r
    → in_window (window_starts_at job) (window_ends_at job) r ≡ true
unfolding in_window window_starts_at window_ends_at
RevertedInTime→in_window job r h = rw (h.attributed) (ground arith)

abbrev in_time : OutcomeJob → Option ℤ → Bool
in_time job r = in_window (window_starts_at job) (window_ends_at job) r

late_iff : (job : OutcomeJob) (r : Option ℤ) → (in_time job r ≡ false) ↔ (¬ RevertedInTime job r)
late_iff job r = (
  (λ e v. false≢true (sym e ∙ RevertedInTime→in_window job r v)),
  λ n. elim (Bool-cases (in_time job r)) [
    | inl e ↦ absurd (n (in_window→RevertedInTime job r e))
    | inr e ↦ e
  ],
)

abbrev Tested : Bool → String → Option String → OutcomeKind × Option CensorReason → Type 0
Tested w base branch d =
    ((d.0 ≡ revert) ↔ (w ≡ true))
    × ((d.0 ≡ clean) ↔ ((w ≡ false) × (branch ≡ some base)))
    × ((d.0 ≡ censored) ↔ ((w ≡ false) × (branch ≢ some base)))
    × ((d.1 ≡ some unreachable) ↔ ((w ≡ false) × (branch ≡ none)))

disposition-Tested :
    (w : Bool) (base : String) (branch : Option String)
    → Tested w base branch (if w then (revert, none) else without_revert base branch)
unfolding without_revert
disposition-Tested true base branch = (ground arith, ground arith, ground arith, ground arith)
disposition-Tested false base none = (ground arith, ground arith, ground arith, ground arith)
disposition-Tested false base (some b) = (
  ground (arith, string_eq.same_iff base b),
  ground (arith, string_eq.same_iff base b),
  ground (arith, string_eq.same_iff base b),
  ground (arith, string_eq.same_iff base b),
)

-- A job is a miss exactly when a revert is attributed to it at an instant from one day before its
-- merge to its last window day, both included, whatever branch it was merged to; otherwise it is
-- clean exactly when the clone's default branch is its base, and censored when it is not, as
-- unreachable exactly when there is no clone.
pub disposition_precedence :
    (job : OutcomeJob) (r : Option ℤ) (branch : Option String)
    → let d = disposition job r branch in
      ((d.0 ≡ revert) ↔ RevertedInTime job r)
      × ((d.0 ≡ clean) ↔ ((¬ RevertedInTime job r) × (branch ≡ some job.base_ref)))
      × ((d.0 ≡ censored) ↔ ((¬ RevertedInTime job r) × (branch ≢ some job.base_ref)))
      × ((d.1 ≡ some unreachable) ↔ ((¬ RevertedInTime job r) × (branch ≡ none)))
unfolding disposition
disposition_precedence job r branch =
    let (is_revert, is_clean, is_censored, is_unreachable) =
      disposition-Tested (in_time job r) job.base_ref branch in
    let late = late_iff job r in
    (
      (
        (λ p. in_window→RevertedInTime job r (is_revert.0 p)),
        (λ v. is_revert.1 (RevertedInTime→in_window job r v)),
      ),
      ((λ p. let t = is_clean.0 p in (late.0 t.0, t.1)), (λ t. is_clean.1 (late.1 t.0, t.1))),
      ((λ p. let t = is_censored.0 p in (late.0 t.0, t.1)), (λ t. is_censored.1 (late.1 t.0, t.1))),
      (
        (λ p. let t = is_unreachable.0 p in (late.0 t.0, t.1)),
        (λ t. is_unreachable.1 (late.1 t.0, t.1)),
      ),
    )

-- A longer window over the same merge keeps every miss, and a job that is clean over the longer
-- window is clean over the shorter one.
pub longer_window_keeps_misses :
    (job : OutcomeJob) (r : Option ℤ) (branch : Option String) (w : ℕ)
    → job.window_days ≤ w
    → let longer = record job { window_days = w } in
      ((disposition job r branch).0 ≡ revert → (disposition longer r branch).0 ≡ revert)
      × ((disposition longer r branch).0 ≡ clean → (disposition job r branch).0 ≡ clean)
longer_window_keeps_misses job r branch w h =
    let longer = record job { window_days = w } in
    let short = disposition_precedence job r branch in
    let long = disposition_precedence longer r branch in
    let widen : RevertedInTime job r → RevertedInTime longer r = λ v. record {
      at = v.at;
      attributed = v.attributed;
      not_before = v.not_before;
      not_after = omega (int_laws);
    } in
    (
      (λ p. long.0.1 (widen (short.0.0 p))),
      (λ p. let t = long.1.0 p in short.1.1 ((λ v. t.0 (widen v)), t.1)),
    )
