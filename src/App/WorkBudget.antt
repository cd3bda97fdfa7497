-- ===== src/App/WorkBudget.antt =====
-- internal/app/batch.go: the budget that the items of one batch share, and the bytes that it
-- charges for the facts of a verifier.
pub mod Laws
use policy_engine.Prelude.{
  ℕ, ◌+◌, ◌*◌, Bool, ◌||◌, List, [], ◌∷◌, Option, none, some, length, if◌then◌else◌,
}
use policy_engine.Prelude.Int.{ℤ, pos, ◌+ℤ◌, ◌-ℤ◌, ltb_ℤ, is_negative}
use policy_engine.Prelude.Text.{Text}
use policy_engine.Errors.{Result, ok, err, resource_exhausted}
use policy_engine.Model.Data.{
  ValueKind, kind_string, Value, RelationshipTuple, Attribute, ContextualData,
}

pub record BatchWorkBudget : Type 0 where
  pub items : ℤ
  pub bytes : ℤ
  pub max_items : ℤ
  pub max_bytes : ℤ

-- The receiver may be nil: a budget that is not kept.
unfoldable pub add : Option BatchWorkBudget → ℤ → ℤ → Result (Option BatchWorkBudget)
add none items bytes = ok none
add (some b) items bytes =
    if is_negative items
      || is_negative bytes
      || ltb_ℤ (b.max_items -ℤ b.items) items
      || ltb_ℤ (b.max_bytes -ℤ b.bytes) bytes
    then err resource_exhausted
    else ok (some (record b { items = b.items +ℤ items; bytes = b.bytes +ℤ bytes }))

text_bytes : Text → ℕ
text_bytes value = 8 + length value

-- The loop over a path, from the bytes counted so far.
path_bytes : ℕ → List Text → ℕ
unfolding text_bytes
path_bytes bytes [] = bytes
path_bytes bytes (segment ∷ path) = path_bytes (bytes + text_bytes segment) path

string_bytes : ValueKind → Text → ℕ
string_bytes kind_string text = length text
string_bytes _ text = 0

tuple_bytes : ℕ → List RelationshipTuple → ℕ
unfolding text_bytes
tuple_bytes bytes [] = bytes
tuple_bytes bytes (t ∷ tuples) =
    let value = t.tuple in
    let bytes1 =
      bytes
      + (text_bytes value.resource.type_name
          + text_bytes value.resource.id
          + text_bytes value.relation) in
    let bytes2 =
      bytes1
      + (text_bytes value.subject.type_name
          + text_bytes value.subject.id
          + text_bytes value.subject.relation) in
    let bytes3 = bytes2 + (8 + 1) in
    tuple_bytes (if t.has_expiry then bytes3 + (8 + 40) else bytes3) tuples

attribute_bytes : ℕ → List Attribute → ℕ
unfolding text_bytes path_bytes string_bytes
attribute_bytes bytes [] = bytes
attribute_bytes bytes (a ∷ attributes) =
    let bytes1 = bytes + (text_bytes a.entity.type_name + text_bytes a.entity.id + 8) in
    let bytes2 = path_bytes bytes1 a.path in
    let bytes3 = bytes2 + 9 in
    attribute_bytes (bytes3 + string_bytes a.value.kind a.value.text) attributes

unfoldable pub contextual_data_verifier_bytes : ContextualData → ℕ
unfolding tuple_bytes attribute_bytes
contextual_data_verifier_bytes contextual =
    attribute_bytes (tuple_bytes (2 * 8) contextual.tuples) contextual.attributes
