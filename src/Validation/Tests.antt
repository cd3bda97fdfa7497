-- ===== src/Validation/Tests.antt =====
-- A run of the rules of validation.go.
use policy_engine.Prelude.{◌≡◌, refl, false, ◌↔◌}
use policy_engine.Prelude.Text.{Text, codes}
use policy_engine.Errors.{ok}
use policy_engine.Limits.{max_namespace_pattern_bytes}
use policy_engine.Validation.{validate_text, validate_namespace_pattern}
use policy_engine.Validation.Patterns.{IsPattern, validate_namespace_pattern-IsPattern}

-- All namespaces under a prefix.
abbrev tenants : Text
tenants = codes "tenant/*"

tenants_valid : validate_namespace_pattern (λ r. false) tenants ≡ ok tt
unfolding validate_namespace_pattern
tenants_valid = refl

validate_namespace_pattern-IsPattern_example :
    (validate_namespace_pattern (λ r. false) tenants ≡ ok tt) ↔ (
      (validate_text (λ r. false) tenants max_namespace_pattern_bytes false ≡ ok tt)
      × IsPattern tenants)
validate_namespace_pattern-IsPattern_example =
    validate_namespace_pattern-IsPattern (λ r. false) tenants
