-- ===== src/Validation/Patterns.antt =====
-- The form of a namespace pattern, validation.go.
use policy_engine.Prelude.{
  ℕ, ◌≤◌, ◌≡◌, refl, ap, arith, Bool, true, false, ◌==◌, ltb, [], ◌∷◌, ◌++◌, ◌⊎◌, inl, inr,
  Bool-cases, ◌↔◌, ◌||◌, ◌&&◌, not,
}
use policy_engine.Prelude.Text.{Text}
use policy_engine.Errors.{ok}
use policy_engine.Errors.Laws.{bound}
use policy_engine.Limits.{max_namespace_pattern_bytes}
use policy_engine.Validation.{
  asterisk, count_asterisks, has_asterisk, ends_with_asterisk, validate_text,
  validate_namespace_pattern, require,
}

count-ends : (s : Text) → ends_with_asterisk s ≡ true → 1 ≤ count_asterisks s
count-ends [] h = ground arith
count-ends (c ∷ []) h = ground arith
count-ends (c ∷ d ∷ s) h = let r = count-ends (d ∷ s) h in ground arith

prefix_of :
    (s : Text)
    → count_asterisks s ≤ 1
    → ends_with_asterisk s ≡ true
    → (p : Text) × (s ≡ p ++ (asterisk ∷ [])) × (has_asterisk p ≡ false)
prefix_of [] n h = ground arith
prefix_of (c ∷ []) n h = let e : c ≡ 42 = ground arith in ([], ap (λ x. x ∷ []) e, refl)
prefix_of (c ∷ d ∷ s) n h =
    let m = count-ends (d ∷ s) h in
    let (p, e, f) = prefix_of (d ∷ s) (ground arith) h in
    let g : (c == asterisk) ≡ false = ground arith in (c ∷ p, ap (λ x. c ∷ x) e, rw (g, f) refl)

count-none : (s : Text) → has_asterisk s ≡ false → count_asterisks s ≡ 0
count-none [] h = refl
count-none (c ∷ s) h = let r = count-none s in ground arith

count-append : (p : Text) → has_asterisk p ≡ false → count_asterisks (p ++ (asterisk ∷ [])) ≡ 1
count-append [] h = refl
count-append (c ∷ p) h = let r = count-append p in ground arith

ends-append : (p : Text) → ends_with_asterisk (p ++ (asterisk ∷ [])) ≡ true
ends-append [] = refl
ends-append (c ∷ []) = refl
ends-append (c ∷ d ∷ p) = ends-append (d ∷ p)

-- A text without a wildcard, or a prefix without one and a final wildcard.
abbrev pub IsPattern : Text → Type 0
IsPattern s =
    (has_asterisk s ≡ false) ⊎ ((p : Text) × (s ≡ p ++ (asterisk ∷ [])) × (has_asterisk p ≡ false))

abbrev pub form_ok : Text → Bool
form_ok s = not (ltb 1 (count_asterisks s) || (has_asterisk s && not (ends_with_asterisk s)))

form-IsPattern : (s : Text) → form_ok s ≡ true → IsPattern s
form-IsPattern s h = elim (Bool-cases (has_asterisk s)) [
  | inl has ↦ inr (prefix_of s (ground arith) (ground arith))
  | inr has ↦ inl has
]

IsPattern-form : (s : Text) → IsPattern s → form_ok s ≡ true
IsPattern-form s (inl h) = let n = count-none s h in rw (n, h) refl
IsPattern-form s (inr (p, e, h)) =
    let n = count-append p h in let z = ends-append p in rw (e, n, z) ground arith

required : (b : Bool) → require b ≡ ok tt → b ≡ true
required true h = refl
required false h = ground arith

module _ (format : ℕ → Bool) where
  -- A namespace pattern is valid exactly when it is a valid text of one to `MaxNamespacePatternBytes`
  -- bytes that has no asterisk, or is a prefix without one and a final asterisk.
  pub validate_namespace_pattern-IsPattern :
      (s : Text)
      → (validate_namespace_pattern format s ≡ ok tt)
        ↔ ((validate_text format s max_namespace_pattern_bytes false ≡ ok tt) × IsPattern s)
  unfolding validate_namespace_pattern
  validate_namespace_pattern-IsPattern s = (
    λ h.
        let (u, e, f) =
          bound (validate_text format s max_namespace_pattern_bytes false)
            (λ u. require (form_ok s)) tt h in
        (e, form-IsPattern s (required (form_ok s) f)),
    λ h. rw (h.0, IsPattern-form s h.1) refl,
  )
