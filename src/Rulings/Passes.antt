-- ===== src/Rulings/Passes.antt =====
-- rulings.py: what a row must be for `_row` to let it through.
use doug.Prelude.{
  ℕ, ◌||◌, sort_by, String, ◌≤◌, ◌≡◌, ◌≢◌, refl, Bool, true, false, not, Option, none, some, List,
  [], ◌∷◌, map, leb, ◌==◌, nat_eq, list_eq, arith, leb→le, length, length-reverse, Bool-cases, inl,
  inr, Text, codes, keep,
}
use mathlib.Core.List.{reverse}
use doug.Convergence.Patterns.{lstrip, strip}
use doug.Rulings.Checks.{
  Checked, fine, wrong, ◌>>=◌, ◌>>◌, guard, text_field, read_field, rule_field, verdict_field,
  changed_field, ref_field, checked_row, row_of, read_shape, valid_rule, get, max_file_chars,
  max_reason_chars, max_ref_chars, has, has_key, required, optional_keys, text_before,
}
use doug.Rulings.{
  Ruling, Why, Field, text, boolean, other, Loaded, invalid, not_object, object, loaded_row,
}

-- What a check lets through satisfies `P`.
abbrev pub Passes {ℓ κ} : {A : Type ℓ} → (A → Type κ) → Checked A → Type κ
Passes P (fine a) = P a
Passes P (wrong w) = Unit

pub bind-Passes {ℓ κ μ ν} :
    {A : Type ℓ} {B : Type κ} (P : A → Type μ) (Q : B → Type ν) (m : Checked A) (f : A → Checked B)
    → Passes P m
    → ((a : A) → P a → Passes Q (f a))
    → Passes Q (m >>= f)
bind-Passes P Q (fine a) f h k = k a h
bind-Passes P Q (wrong w) f h k = tt

pub guard-Passes {ℓ κ} :
    {B : Type ℓ} (Q : B → Type κ) (b : Bool) (w : Why) (m : Checked B)
    → (b ≡ true → Passes Q m)
    → Passes Q (guard b w >> m)
guard-Passes Q true w m k = k refl
guard-Passes Q false w m k = tt

length-lstrip : (p : ℕ → Bool) (s : Text) → length (lstrip p s) ≤ length s
unfolding lstrip
length-lstrip p [] = omega arith
length-lstrip p (c ∷ cs) = elim (Bool-cases (p c)) [
  | inl e ↦ rw e (omega (arith, length-lstrip p cs))
  | inr e ↦ rw e (omega arith)
]

length-strip : (p : ℕ → Bool) (s : Text) → length (strip p s) ≤ length s
unfolding strip
length-strip p s =
    let a = length-lstrip p s in
    let b = length-lstrip p (reverse (lstrip p s)) in
    let c = length-reverse (lstrip p (reverse (lstrip p s))) in
    let d = length-reverse (lstrip p s) in omega arith

-- A text of a field: not blank, and not longer than its limit.
abbrev pub Fits : ℕ → Text → Type 0
Fits limit s = (s ≢ []) × (length s ≤ limit)

abbrev pub RefFits : Option Text → Type 0
RefFits none = Unit
RefFits (some s) = Fits max_ref_chars s

pub record IsBounded (r : Ruling) : Type 0 where
  pub read_is_sha : read_shape r.read ≡ true
  pub rule_is_valid : valid_rule r.rule ≡ true
  pub file_fits : Fits max_file_chars r.file
  pub reason_fits : Fits max_reason_chars r.reason
  pub ref_fits : RefFits r.ref

not_empty : (s : Text) → not (s == []) ≡ true → s ≢ []
not_empty [] h e = ground arith
not_empty (c ∷ s) h e = ground arith

text_field-Passes :
    (p : ℕ → Bool) (name : Text) (limit : ℕ) (f : Option Field)
    → Passes (λ s. Fits limit (strip p s)) (text_field p name limit f)
text_field-Passes p name limit none = tt
text_field-Passes p name limit (some (boolean b)) = tt
text_field-Passes p name limit (some other) = tt
text_field-Passes p name limit (some (text t)) =
    guard-Passes (λ s. Fits limit (strip p s)) (not (strip p t == [])) (Why.empty_field name) _
      (λ full.
        guard-Passes (λ s. Fits limit (strip p s)) (leb (length t) limit)
          (Why.long_field name limit) (fine t)
          (λ short. (
            not_empty (strip p t) full,
            omega (arith, length-strip p t, leb→le (length t) limit short),
          )))

read_field-Passes : (f : Option Field) → Passes (λ s. read_shape s ≡ true) (read_field f)
read_field-Passes none = tt
read_field-Passes (some (boolean b)) = tt
read_field-Passes (some other) = tt
read_field-Passes (some (text t)) =
    guard-Passes (λ s. read_shape s ≡ true) (read_shape t) Why.bad_read (fine t) (λ h. h)

rule_field-Passes : (f : Option Field) → Passes (λ s. valid_rule s ≡ true) (rule_field f)
rule_field-Passes none = tt
rule_field-Passes (some (boolean b)) = tt
rule_field-Passes (some other) = tt
rule_field-Passes (some (text t)) =
    guard-Passes (λ s. valid_rule s ≡ true) (valid_rule t) Why.bad_rule (fine t) (λ h. h)

ref_field-Passes : (p : ℕ → Bool) (f : Option Field) → Passes RefFits (ref_field p f)
ref_field-Passes p none = tt
ref_field-Passes p (some f) =
    bind-Passes (λ s. Fits max_ref_chars (strip p s)) RefFits
      (text_field p (codes "ref") max_ref_chars (some f)) _
      (text_field-Passes p (codes "ref") max_ref_chars (some f)) (λ s h. h)

anything {ℓ} : {A : Type ℓ} (m : Checked A) → Passes (λ a. Unit {0}) m
anything (fine a) = tt
anything (wrong w) = tt

-- A row that is bounded, under its number.
abbrev pub IsRow : ℕ → Ruling → Type 0
IsRow n r = IsBounded r × (r.row ≡ n)

checked_row-Passes :
    (p : ℕ → Bool) (n : ℕ) (obj : List (Text × Field)) → Passes (IsRow n) (checked_row p n obj)
unfolding checked_row
checked_row-Passes p n obj =
    let at : String → Option Field = λ key. get (codes key) obj in
    bind-Passes (λ s. read_shape s ≡ true) (IsRow n) (read_field (at "read")) _
      (read_field-Passes (at "read"))
      (λ read h₁.
        bind-Passes (λ s. valid_rule s ≡ true) (IsRow n) (rule_field (at "rule")) _
          (rule_field-Passes (at "rule"))
          (λ rule h₂.
            bind-Passes (λ s. Fits max_file_chars (strip p s)) (IsRow n)
              (text_field p (codes "file") max_file_chars (at "file")) _
              (text_field-Passes p (codes "file") max_file_chars (at "file"))
              (λ file h₃.
                bind-Passes (λ v. Unit {0}) (IsRow n) (verdict_field (at "verdict")) _
                  (anything (verdict_field (at "verdict")))
                  (λ verdict _.
                    bind-Passes (λ v. Unit {0}) (IsRow n) (changed_field (at "changed")) _
                      (anything (changed_field (at "changed")))
                      (λ changed _.
                        bind-Passes (λ s. Fits max_reason_chars (strip p s)) (IsRow n)
                          (text_field p (codes "reason") max_reason_chars (at "reason")) _
                          (text_field-Passes p (codes "reason") max_reason_chars (at "reason"))
                          (λ reason h₄.
                            bind-Passes RefFits (IsRow n) (ref_field p (at "ref")) _
                              (ref_field-Passes p (at "ref"))
                              (λ ref h₅. (
                                record {
                                  read_is_sha = h₁;
                                  rule_is_valid = h₂;
                                  file_fits = h₃;
                                  reason_fits = h₄;
                                  ref_fits = h₅;
                                },
                                refl,
                              ))))))))

pub loaded_row-Passes : (p : ℕ → Bool) (n : ℕ) (l : Loaded) → Passes (IsRow n) (loaded_row p n l)
unfolding row_of
loaded_row-Passes p n (invalid m) = tt
loaded_row-Passes p n not_object = tt
loaded_row-Passes p n (object obj) =
    let missing = keep (λ k. not (has_key obj k)) required in
    let unknown = keep (λ k. not (has k required || has k optional_keys)) (map (λ e. e.0) obj) in
    guard-Passes (IsRow n) (missing == []) (Why.missing_keys missing) _ (λ e.
      guard-Passes (IsRow n) (unknown == []) (Why.unknown_keys (sort_by text_before unknown)) _
        (λ f. checked_row-Passes p n obj))
