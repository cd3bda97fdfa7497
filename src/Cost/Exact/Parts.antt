-- ===== src/Cost/Exact/Parts.antt =====
-- The routines of the first part of cost.go charge their sizes.
use policy_engine.Prelude.{ℕ, ◌+◌, Bool, true, false, List, [], ◌∷◌, arith, if◌then◌else◌, length}
use policy_engine.Prelude.Int.{pos}
use policy_engine.Prelude.Text.{Text}
use policy_engine.Errors.{Result, ok}
use policy_engine.Budget.{BudgetCounter}
use policy_engine.Budget.Laws.{Costs, add-Costs, then-Costs, eq-Costs, ok-Costs, add_many-Costs}
use policy_engine.Model.Data.{
  EntityRef, SubjectRef, Tuple, ValueKind, kind_string, Value, RelationshipTuple, Attribute,
  ContextualData,
}
use policy_engine.Cost.Parts.{
  for_each, add_text_cost, add_bytes_cost, add_fixed_field_cost, add_kind_cost, add_value_cost,
  add_entity_ref_cost, add_attribute_path_cost, add_subject_ref_cost, add_tuple_cost,
  add_relationship_tuple_cost, add_attribute_cost, add_contextual_data_cost, add_argument_cost,
  add_arguments_cost,
}
use policy_engine.Cost.Sizes.{
  sum_of, text_size, payload_size, value_size, entity_size, path_size, subject_size, tuple_size,
  relationship_size, attribute_size, contextual_size, argument_size, arguments_size,
}

pub for_each-Costs :
    {A : Type 0} (step : BudgetCounter → A → Result BudgetCounter) (size : A → ℕ)
    → ((x : A) → Costs (λ budget. step budget x) (size x))
    → (xs : List A) → Costs (λ budget. for_each step budget xs) (sum_of size xs)
unfolding for_each sum_of
for_each-Costs step size each [] = ok-Costs
for_each-Costs step size each (x ∷ xs) = then-Costs (each x) (for_each-Costs step size each xs)

pub if-Costs :
    (b : Bool) {f : BudgetCounter → Result BudgetCounter} {n : ℕ}
    → Costs f n
    → Costs (λ budget. if b then f budget else ok budget) (if b then n else 0)
if-Costs true h = h
if-Costs false h = ok-Costs

pub text-Costs : (value : Text) → Costs (λ budget. add_text_cost budget value) (text_size value)
unfolding add_text_cost
text-Costs value = then-Costs (add-Costs 8) (add-Costs (length value))

pub bytes-Costs : (value : Text) → Costs (λ budget. add_bytes_cost budget value) (text_size value)
unfolding add_bytes_cost
bytes-Costs value = then-Costs (add-Costs 8) (add-Costs (length value))

pub fixed-Costs : (n : ℕ) → Costs (λ budget. add_fixed_field_cost budget (pos n)) (8 + n)
unfolding add_fixed_field_cost
fixed-Costs n = then-Costs (add-Costs 8) (add-Costs n)

kind-Costs :
    (kind : ValueKind) (text : Text)
    → Costs (λ budget. add_kind_cost kind budget text) (payload_size kind text)
unfolding add_kind_cost
kind-Costs kind_string text = add-Costs (length text)
kind-Costs _ text = ok-Costs

pub value-Costs : (value : Value) → Costs (λ budget. add_value_cost budget value) (value_size value)
unfolding add_value_cost
value-Costs value = then-Costs (add-Costs 9) (kind-Costs value.kind value.text)

pub entity-Costs :
    (entity : EntityRef) → Costs (λ budget. add_entity_ref_cost budget entity) (entity_size entity)
unfolding add_entity_ref_cost
entity-Costs entity = then-Costs (text-Costs entity.type_name) (text-Costs entity.id)

pub path-Costs :
    (path : List Text) → Costs (λ budget. add_attribute_path_cost budget path) (path_size path)
unfolding add_attribute_path_cost
path-Costs path = then-Costs (add-Costs 8) (for_each-Costs add_text_cost text_size text-Costs path)

subject-Costs :
    (subject : SubjectRef)
    → Costs (λ budget. add_subject_ref_cost budget subject) (subject_size subject)
unfolding add_subject_ref_cost
subject-Costs subject =
    eq-Costs
      (then-Costs (text-Costs subject.type_name)
        (then-Costs (text-Costs subject.id) (text-Costs subject.relation)))
      (omega arith)

pub tuple-Costs : (tuple : Tuple) → Costs (λ budget. add_tuple_cost budget tuple) (tuple_size tuple)
unfolding add_tuple_cost
tuple-Costs tuple =
    eq-Costs
      (then-Costs (entity-Costs tuple.resource)
        (then-Costs (text-Costs tuple.relation) (subject-Costs tuple.subject)))
      (omega arith)

pub relationship-Costs :
    (tuple : RelationshipTuple)
    → Costs (λ budget. add_relationship_tuple_cost budget tuple) (relationship_size tuple)
unfolding add_relationship_tuple_cost
relationship-Costs tuple =
    eq-Costs
      (then-Costs (tuple-Costs tuple.tuple)
        (then-Costs (fixed-Costs 1) (if-Costs tuple.has_expiry (fixed-Costs 40))))
      (ground arith)

pub attribute-Costs :
    (attribute : Attribute)
    → Costs (λ budget. add_attribute_cost budget attribute) (attribute_size attribute)
unfolding add_attribute_cost
attribute-Costs attribute =
    eq-Costs
      (then-Costs (entity-Costs attribute.entity)
        (then-Costs (path-Costs attribute.path) (value-Costs attribute.value)))
      (omega arith)

pub contextual-Costs :
    (contextual : ContextualData)
    → Costs (λ budget. add_contextual_data_cost budget contextual) (contextual_size contextual)
unfolding add_contextual_data_cost
contextual-Costs contextual =
    eq-Costs
      (then-Costs (add_many-Costs 2 8 (omega arith)) (
        then-Costs
          (for_each-Costs add_relationship_tuple_cost relationship_size relationship-Costs
            contextual.tuples)
          (for_each-Costs add_attribute_cost attribute_size attribute-Costs contextual.attributes)))
      (omega arith)

argument-Costs :
    (argument : Text × Value)
    → Costs (λ budget. add_argument_cost budget argument) (argument_size argument)
unfolding add_argument_cost
argument-Costs (key, value) = then-Costs (text-Costs key) (value-Costs value)

pub arguments-Costs :
    (arguments : List (Text × Value))
    → Costs (λ budget. add_arguments_cost budget arguments) (arguments_size arguments)
unfolding add_arguments_cost
arguments-Costs arguments =
    then-Costs (add-Costs 8)
      (for_each-Costs add_argument_cost argument_size argument-Costs arguments)
