-- ===== src/Validation.antt =====
-- validation.go: the rules for texts, identifiers, namespaces, paths and references. A check that
-- returns no value is a result without content.
pub mod Runes
pub mod Canonical
pub mod Patterns
mod Tests
use policy_engine.Prelude.{
  ℕ, Bool, true, false, ◌&&◌, ◌||◌, not, List, [], ◌∷◌, Option, none, some, if◌then◌else◌, length,
  ltb, leb, ◌==◌, ◌+◌,
}
use policy_engine.Prelude.Int.{ℤ, pos, negsuc}
use policy_engine.Prelude.Text.{Text, is_empty}
use policy_engine.Errors.{Result, ok, err, ◌>>=◌, ◌>>◌, invalid_argument, resource_exhausted}
use policy_engine.Limits.{
  max_identifier_bytes, max_string_value_bytes, max_namespace_bytes, max_namespace_pattern_bytes,
  max_argument_items, max_aggregate_input_bytes, max_aggregate_work_items,
}
use policy_engine.Budget.{BudgetCounter}
use policy_engine.Cost.Parts.{add_attribute_path_cost}
use policy_engine.Model.Data.{
  EntityRef, SubjectRef, Tuple, Value, ValueKind, unset, kind_string, kind_integer, kind_boolean,
  kind_null,
}
use policy_engine.Validation.Runes.{runes}

abbrev pub Check : Type 0
Check = Result (Unit {0})

-- `err == nil`
abbrev pub succeeds : {A : Type 0} → Result A → Bool
succeeds (ok a) = true
succeeds (err e) = false

abbrev pub any : {A : Type 0} → (A → Bool) → List A → Bool
any f [] = false
any f (x ∷ xs) = f x || any f xs

abbrev pub all : {A : Type 0} → (A → Bool) → List A → Bool
all f [] = true
all f (x ∷ xs) = f x && all f xs

-- A loop that returns the first error.
abbrev pub check_each : {A : Type 0} → (A → Check) → List A → Check
check_each f [] = ok tt
check_each f (x ∷ xs) = let rest = check_each f xs in f x >>= (λ u. rest)

abbrev pub require : Bool → Check
require b = if b then ok tt else err invalid_argument

-- `unicode.IsControl`
abbrev pub is_control : ℕ → Bool
is_control r = ltb r 32 || (leb 127 r && ltb r 160)

abbrev pub asterisk : ℕ
asterisk = 42

-- `strings.Count(s, "*")`
abbrev pub count_asterisks : Text → ℕ
count_asterisks [] = 0
count_asterisks (c ∷ s) = (if c == asterisk then 1 else 0) + count_asterisks s

abbrev pub has_asterisk : Text → Bool
has_asterisk s = any (λ c. c == asterisk) s

abbrev pub ends_with_asterisk : Text → Bool
ends_with_asterisk [] = false
ends_with_asterisk (c ∷ []) = c == asterisk
ends_with_asterisk (c ∷ d ∷ s) = ends_with_asterisk (d ∷ s)

abbrev pub is_dsl_identifier_start : ℕ → Bool
is_dsl_identifier_start c = (c == 95) || (leb 65 c && leb c 90) || (leb 97 c && leb c 122)

abbrev pub is_digit : ℕ → Bool
is_digit c = leb 48 c && leb c 57

unfoldable pub valid_dsl_identifier : Text → Bool
valid_dsl_identifier [] = false
valid_dsl_identifier (c ∷ s) =
    is_dsl_identifier_start c && all (λ d. is_dsl_identifier_start d || is_digit d) s

unfoldable pub valid_revision_id_string : Text → Bool
valid_revision_id_string s = (length s == 64) && all (λ c. is_digit c || (leb 97 c && leb c 102)) s

abbrev is_zero : ℤ → Bool
is_zero (pos n) = n == 0
is_zero (negsuc n) = false

-- `format` is the table `unicode.Cf`.
module _ (format : ℕ → Bool) where
  abbrev pub is_unsafe : ℕ → Bool
  is_unsafe r = (r == 0) || is_control r || format r

  abbrev validate_runes : Option (List ℕ) → Check
  validate_runes none = err invalid_argument
  validate_runes (some rs) = require (not (any is_unsafe rs))

  unfoldable pub validate_text : Text → ℕ → Bool → Check
  unfolding runes
  validate_text value maximum allow_empty =
      if is_empty value && not allow_empty
      then err invalid_argument
      else if ltb maximum (length value)
      then err resource_exhausted
      else validate_runes (runes value)

  unfoldable pub validate_identifier : Text → Check
  unfolding validate_text
  validate_identifier value = validate_text value max_identifier_bytes false

  unfoldable pub validate_optional_identifier : Text → Check
  unfolding validate_text
  validate_optional_identifier value = validate_text value max_identifier_bytes true

  unfoldable pub validate_namespace : Text → Check
  unfolding validate_text
  validate_namespace value = do
    validate_text value max_namespace_bytes false
    require (not (has_asterisk value))

  unfoldable pub validate_namespace_pattern : Text → Check
  unfolding validate_text
  validate_namespace_pattern pattern = do
    validate_text pattern max_namespace_pattern_bytes false
    require (
        not (
          ltb 1 (count_asterisks pattern)
          || (has_asterisk pattern && not (ends_with_asterisk pattern))))

  abbrev validate_segment : Text → Check
  unfolding validate_identifier valid_dsl_identifier
  validate_segment segment = do validate_identifier segment; require (valid_dsl_identifier segment)

  unfoldable pub validate_attribute_path : List Text → Check
  unfolding validate_identifier valid_dsl_identifier add_attribute_path_cost
  validate_attribute_path path =
      if length path == 0
      then err invalid_argument
      else if ltb max_aggregate_work_items (length path)
      then err resource_exhausted
      else add_attribute_path_cost (record { used = pos 0; limit = pos max_aggregate_input_bytes })
          path
        >>= (λ b. check_each validate_segment path)

  unfoldable pub validate_entity_ref : EntityRef → Check
  unfolding validate_identifier
  validate_entity_ref entity = do
    validate_identifier entity.type_name
    validate_identifier entity.id

  unfoldable pub validate_subject_ref : SubjectRef → Check
  unfolding validate_identifier validate_optional_identifier
  validate_subject_ref subject = do
    validate_identifier subject.type_name
    validate_identifier subject.id
    validate_optional_identifier subject.relation

  unfoldable pub validate_dsl_relationship : Tuple → Check
  unfolding validate_identifier validate_entity_ref validate_subject_ref
  validate_dsl_relationship tuple = do
    validate_entity_ref tuple.resource
    validate_identifier tuple.relation
    validate_subject_ref tuple.subject

  -- The method `valid` of a value.
  abbrev pub valid_value_kind : ValueKind → Value → Bool
  unfolding validate_text
  valid_value_kind kind_string v =
      is_zero v.integer
      && not v.boolean
      && succeeds (validate_text v.text max_string_value_bytes true)
  valid_value_kind kind_integer v = is_empty v.text && not v.boolean
  valid_value_kind kind_boolean v = is_empty v.text && is_zero v.integer
  valid_value_kind kind_null v = is_empty v.text && is_zero v.integer && not v.boolean
  valid_value_kind unset v = false

  abbrev validate_string : ValueKind → Text → Check
  unfolding validate_text
  validate_string kind_string text = validate_text text max_string_value_bytes true
  validate_string _ text = ok tt

  unfoldable pub validate_value : Value → Check
  unfolding validate_text
  validate_value value =
      if not (valid_value_kind value.kind value)
      then err invalid_argument
      else validate_string value.kind value.text

  abbrev validate_argument : Text × Value → Check
  unfolding validate_identifier validate_value
  validate_argument (key, value) = do validate_identifier key; validate_value value

  unfoldable pub validate_arguments : List (Text × Value) → Check
  unfolding validate_identifier validate_value
  validate_arguments arguments =
      if ltb max_argument_items (length arguments)
      then err resource_exhausted
      else check_each validate_argument arguments
