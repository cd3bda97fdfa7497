-- ===== src/Cost/Parts.antt =====
-- The first part of cost.go: the costs of texts, values, tuples, attributes and contextual data.
use policy_engine.Prelude.{List, [], ◌∷◌, if◌then◌else◌, ℕ, length, ◌+◌}
use policy_engine.Prelude.Int.{ℤ, pos}
use policy_engine.Prelude.Text.{Text}
use policy_engine.Errors.{Result, ok, ◌>>=◌}
use policy_engine.Budget.{BudgetCounter, add, add_many}
use policy_engine.Model.Data.{
  EntityRef, SubjectRef, Tuple, ValueKind, kind_string, Value, RelationshipTuple, Attribute,
  ContextualData,
}

abbrev pub value_metadata_bytes : ℤ
value_metadata_bytes = pos 9

abbrev pub collection_metadata_bytes : ℤ
collection_metadata_bytes = pos 8

abbrev pub field_metadata_bytes : ℤ
field_metadata_bytes = pos 8

abbrev pub timestamp_bytes : ℤ
timestamp_bytes = pos 40

abbrev pub digest_bytes : ℤ
digest_bytes = pos 32

abbrev pub uint64_bytes : ℤ
uint64_bytes = pos 8

abbrev pub bool_bytes : ℤ
bool_bytes = pos 1

abbrev pub enum_bytes : ℤ
enum_bytes = pos 1

-- `for _, x := range xs { if err := step(budget, x); err != nil { return err } }`
unfoldable pub for_each :
    {A : Type 0}
    → (BudgetCounter → A → Result BudgetCounter)
    → BudgetCounter
    → List A
    → Result BudgetCounter
for_each step budget [] = ok budget
for_each step budget (x ∷ xs) = do budget ← step budget x; for_each step budget xs

unfoldable pub add_text_cost : BudgetCounter → Text → Result BudgetCounter
add_text_cost budget value = do
  budget ← add budget field_metadata_bytes
  add budget (pos (length value))

unfoldable pub add_bytes_cost : BudgetCounter → Text → Result BudgetCounter
add_bytes_cost budget value = do
  budget ← add budget field_metadata_bytes
  add budget (pos (length value))

unfoldable pub add_fixed_field_cost : BudgetCounter → ℤ → Result BudgetCounter
add_fixed_field_cost budget size = do budget ← add budget field_metadata_bytes; add budget size

-- The text of a value counts if its kind is `kind_string`.
unfoldable pub add_kind_cost : ValueKind → BudgetCounter → Text → Result BudgetCounter
add_kind_cost kind_string budget text = add budget (pos (length text))
add_kind_cost _ budget text = ok budget

unfoldable pub add_value_cost : BudgetCounter → Value → Result BudgetCounter
unfolding add_kind_cost
add_value_cost budget value = do
  budget ← add budget value_metadata_bytes
  add_kind_cost value.kind budget value.text

unfoldable pub add_entity_ref_cost : BudgetCounter → EntityRef → Result BudgetCounter
add_entity_ref_cost budget entity = do
  budget ← add_text_cost budget entity.type_name
  add_text_cost budget entity.id

unfoldable pub add_attribute_path_cost : BudgetCounter → List Text → Result BudgetCounter
add_attribute_path_cost budget path = do
  budget ← add budget collection_metadata_bytes
  for_each add_text_cost budget path

unfoldable pub add_subject_ref_cost : BudgetCounter → SubjectRef → Result BudgetCounter
add_subject_ref_cost budget subject = do
  budget ← add_text_cost budget subject.type_name
  budget ← add_text_cost budget subject.id
  add_text_cost budget subject.relation

unfoldable pub add_tuple_cost : BudgetCounter → Tuple → Result BudgetCounter
add_tuple_cost budget tuple = do
  budget ← add_entity_ref_cost budget tuple.resource
  budget ← add_text_cost budget tuple.relation
  add_subject_ref_cost budget tuple.subject

unfoldable pub add_relationship_tuple_cost :
    BudgetCounter → RelationshipTuple → Result BudgetCounter
add_relationship_tuple_cost budget tuple = do
  budget ← add_tuple_cost budget tuple.tuple
  budget ← add_fixed_field_cost budget bool_bytes
  if tuple.has_expiry then add_fixed_field_cost budget timestamp_bytes else ok budget

unfoldable pub add_attribute_cost : BudgetCounter → Attribute → Result BudgetCounter
add_attribute_cost budget attribute = do
  budget ← add_entity_ref_cost budget attribute.entity
  budget ← add_attribute_path_cost budget attribute.path
  add_value_cost budget attribute.value

unfoldable pub add_contextual_data_cost : BudgetCounter → ContextualData → Result BudgetCounter
add_contextual_data_cost budget contextual = do
  budget ← add_many budget (pos 2) collection_metadata_bytes
  budget ← for_each add_relationship_tuple_cost budget contextual.tuples
  for_each add_attribute_cost budget contextual.attributes

unfoldable pub add_argument_cost : BudgetCounter → Text × Value → Result BudgetCounter
add_argument_cost budget (key, value) = do
  budget ← add_text_cost budget key
  add_value_cost budget value

unfoldable pub add_arguments_cost : BudgetCounter → List (Text × Value) → Result BudgetCounter
unfolding add_argument_cost
add_arguments_cost budget arguments = do
  budget ← add budget collection_metadata_bytes
  for_each add_argument_cost budget arguments

unfoldable pub contextual_work_items : ContextualData → ℕ
contextual_work_items contextual = length contextual.tuples + length contextual.attributes
