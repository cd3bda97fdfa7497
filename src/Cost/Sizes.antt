-- ===== src/Cost/Sizes.antt =====
-- The bytes that a value accounts for, apart from any budget: dynamic bytes, and fixed metadata for
-- each field, collection, scalar, timestamp and digest. This is the specification of cost.go.
use policy_engine.Prelude.{ℕ, ◌+◌, List, [], ◌∷◌, if◌then◌else◌, length, not}
use policy_engine.Prelude.Text.{Text, text_eq}
use policy_engine.Model.Data.{
  EntityRef, SubjectRef, Tuple, ValueKind, kind_string, Value, RelationshipTuple, Attribute,
  ContextualData, TupleKey, AttributeKey,
}
use policy_engine.Model.Requests.{
  Selector, CheckRequestInput, BatchCheckItem, BatchCheckRequestInput, WriteDataRequestInput,
}
use policy_engine.Model.Records.{
  DecisionResult, ExplainStep, EvidenceBinding, Grant, RevisionMetadata, Activation, StateEvent,
  ComponentStatus,
}
use policy_engine.Cost.Responses.{zero_digest}

unfoldable pub sum_of : {A : Type 0} → (A → ℕ) → List A → ℕ
sum_of size [] = 0
sum_of size (x ∷ xs) = size x + sum_of size xs

abbrev pub text_size : Text → ℕ
text_size value = 8 + length value

abbrev pub payload_size : ValueKind → Text → ℕ
payload_size kind_string text = length text
payload_size _ text = 0

abbrev pub value_size : Value → ℕ
value_size value = 9 + payload_size value.kind value.text

abbrev pub entity_size : EntityRef → ℕ
entity_size entity = text_size entity.type_name + text_size entity.id

abbrev pub path_size : List Text → ℕ
path_size path = 8 + sum_of text_size path

abbrev pub subject_size : SubjectRef → ℕ
subject_size subject =
    text_size subject.type_name + text_size subject.id + text_size subject.relation

abbrev pub tuple_size : Tuple → ℕ
tuple_size tuple =
    entity_size tuple.resource + text_size tuple.relation + subject_size tuple.subject

abbrev pub relationship_size : RelationshipTuple → ℕ
relationship_size tuple = tuple_size tuple.tuple + 9 + (if tuple.has_expiry then 48 else 0)

abbrev pub attribute_size : Attribute → ℕ
attribute_size attribute =
    entity_size attribute.entity + path_size attribute.path + value_size attribute.value

abbrev pub contextual_size : ContextualData → ℕ
contextual_size contextual =
    16 + sum_of relationship_size contextual.tuples + sum_of attribute_size contextual.attributes

abbrev pub argument_size : Text × Value → ℕ
argument_size argument = text_size argument.0 + value_size argument.1

abbrev pub arguments_size : List (Text × Value) → ℕ
arguments_size arguments = 8 + sum_of argument_size arguments

abbrev pub selector_size : Selector → ℕ
selector_size selector = text_size selector.slot + text_size selector.revision_id

abbrev pub check_request_size : CheckRequestInput → ℕ
check_request_size input =
    text_size input.namespace
    + selector_size input.selector
    + entity_size input.subject
    + entity_size input.resource
    + text_size input.action
    + arguments_size input.arguments
    + contextual_size input.contextual_data
    + text_size input.approval_evidence
    + text_size input.delegation_evidence
    + 16

abbrev pub batch_item_size : BatchCheckItem → ℕ
batch_item_size item =
    entity_size item.subject
    + entity_size item.resource
    + text_size item.action
    + arguments_size item.arguments

abbrev pub batch_request_size : BatchCheckRequestInput → ℕ
batch_request_size input =
    text_size input.namespace
    + selector_size input.selector
    + 8
    + sum_of batch_item_size input.items
    + contextual_size input.contextual_data
    + text_size input.approval_evidence
    + text_size input.delegation_evidence
    + 16

abbrev pub tuple_key_size : TupleKey → ℕ
tuple_key_size key = tuple_size key.tuple

abbrev pub attribute_key_size : AttributeKey → ℕ
attribute_key_size key = entity_size key.entity + path_size key.path

abbrev pub write_data_size : WriteDataRequestInput → ℕ
write_data_size input =
    text_size input.namespace
    + text_size input.validation_revision_id
    + text_size input.idempotency_key
    + 48
    + sum_of relationship_size input.tuple_writes
    + sum_of tuple_key_size input.tuple_deletes
    + sum_of attribute_size input.attribute_writes
    + sum_of attribute_key_size input.attribute_deletes

abbrev pub evidence_binding_size : EvidenceBinding → ℕ
evidence_binding_size binding =
    text_size binding.namespace
    + selector_size binding.selector
    + text_size binding.revision_id
    + 160

abbrev pub caller_size : Text → List (Text × Text) → ℕ
caller_size id attributes =
    text_size id + 8 + sum_of (λ entry. text_size entry.0 + text_size entry.1) attributes

abbrev pub grant_size : Grant → ℕ
grant_size grant = text_size grant.namespace_pattern + 8 + sum_of text_size grant.capabilities

abbrev pub decision_result_size : DecisionResult → ℕ
decision_result_size result =
    text_size result.decision_id
    + text_size result.reason_code
    + text_size result.revision_id
    + 116
    + (if not (text_eq result.approval_binding_digest zero_digest) then 40 else 0)
    + path_size result.requirements

abbrev pub explain_step_size : ExplainStep → ℕ
explain_step_size step = text_size step.schema_path + text_size step.operator + 9

abbrev pub revision_metadata_size : RevisionMetadata → ℕ
revision_metadata_size revision = text_size revision.namespace + 120

abbrev pub activation_size : Activation → ℕ
activation_size activation =
    text_size activation.namespace
    + text_size activation.slot
    + text_size activation.revision_id
    + 64

abbrev pub state_event_size : StateEvent → ℕ
state_event_size event =
    text_size event.namespace
    + text_size event.cursor
    + text_size event.revision_id
    + text_size event.slot
    + 89

abbrev pub component_status_size : ComponentStatus → ℕ
component_status_size component = text_size component.name + 9 + text_size component.reason_code
