-- ===== src/Validation/Canonical.antt =====
-- validation.go: canonical lists of identifiers.
use policy_engine.Prelude.{
  ℕ, Bool, true, false, ◌&&◌, not, List, [], ◌∷◌, Option, none, some, if◌then◌else◌, length, ltb,
  Ordering,
}
use policy_engine.Prelude.Int.{pos}
use policy_engine.Prelude.Text.{Text, text_eq, compare_text}
use policy_engine.Errors.{Result, ok, err, ◌>>=◌, ◌>>◌, resource_exhausted}
use policy_engine.Budget.{BudgetCounter, add}
use policy_engine.Validation.{Check, succeeds, require, validate_identifier}

abbrev is_below : Ordering → Bool
is_below Ordering.lt = true
is_below Ordering.eq = false
is_below Ordering.gt = false

-- `a < b` on strings.
abbrev pub less : Text → Text → Bool
less a b = is_below (compare_text a b)

-- `sort.Strings`
abbrev pub insert_text : Text → List Text → List Text
insert_text x [] = x ∷ []
insert_text x (y ∷ ys) = let rest = insert_text x ys in if less y x then y ∷ rest else x ∷ y ∷ ys

abbrev pub sort_texts : List Text → List Text
sort_texts [] = []
sort_texts (x ∷ xs) = insert_text x (sort_texts xs)

-- The loop that keeps a value unless it is the last one kept.
abbrev pub compact_after : Text → List Text → List Text
compact_after kept [] = []
compact_after kept (x ∷ xs) =
    let rest = compact_after x xs in if text_eq kept x then rest else x ∷ rest

abbrev pub compact : List Text → List Text
compact [] = []
compact (x ∷ xs) = x ∷ compact_after x xs

-- `values[index-1] < value`, from the second value on.
abbrev pub follows : Option Text → Text → Bool
follows none x = true
follows (some previous) x = less previous x

module _ (format : ℕ → Bool) where
  abbrev pub check_values : BudgetCounter → List Text → Check
  check_values budget [] = ok tt
  check_values budget (x ∷ xs) = do
    budget ← add budget (pos (length x))
    validate_identifier format x
    check_values budget xs

  unfoldable pub canonical_identifiers : List Text → ℕ → ℕ → Result (List Text)
  canonical_identifiers values maximum_items maximum_bytes =
      if ltb maximum_items (length values) then err resource_exhausted else (do
        check_values (record { used = pos 0; limit = pos maximum_bytes }) values
        ok (compact (sort_texts values)))

  abbrev pub canonical_values : BudgetCounter → Option Text → List Text → Check
  canonical_values budget previous [] = ok tt
  canonical_values budget previous (x ∷ xs) = do
    budget ← add budget (pos (length x))
    validate_identifier format x
    require (follows previous x)
    canonical_values budget (some x) xs

  unfoldable pub valid_canonical_identifiers : List Text → ℕ → ℕ → Bool
  valid_canonical_identifiers values maximum_items maximum_bytes =
      not (ltb maximum_items (length values))
      && succeeds
          (canonical_values (record { used = pos 0; limit = pos maximum_bytes }) none values)
