-- ===== src/Cost/Requests.antt =====
-- The routines of cost.go that bound a request.
use policy_engine.Prelude.{List, [], ◌∷◌}
use policy_engine.Prelude.Int.{pos}
use policy_engine.Prelude.Text.{Text}
use policy_engine.Errors.{Result, ◌>>=◌}
use policy_engine.Budget.{BudgetCounter, add, add_many}
use policy_engine.Model.Data.{TupleKey, AttributeKey}
use policy_engine.Model.Requests.{
  Selector, CheckRequestInput, BatchCheckItem, BatchCheckRequestInput, WriteDataRequestInput,
}
use policy_engine.Model.Records.{EvidenceBinding, Grant}
use policy_engine.Cost.Parts.{
  for_each, collection_metadata_bytes, uint64_bytes, timestamp_bytes, digest_bytes, add_text_cost,
  add_bytes_cost, add_fixed_field_cost, add_entity_ref_cost, add_attribute_path_cost,
  add_tuple_cost, add_relationship_tuple_cost, add_attribute_cost, add_contextual_data_cost,
  add_arguments_cost,
}

unfoldable pub add_selector_cost : BudgetCounter → Selector → Result BudgetCounter
add_selector_cost budget selector = do
  budget ← add_text_cost budget selector.slot
  add_text_cost budget selector.revision_id

unfoldable pub add_check_request_cost : BudgetCounter → CheckRequestInput → Result BudgetCounter
add_check_request_cost budget input = do
  budget ← add_text_cost budget input.namespace
  budget ← add_selector_cost budget input.selector
  budget ← add_entity_ref_cost budget input.subject
  budget ← add_entity_ref_cost budget input.resource
  budget ← add_text_cost budget input.action
  budget ← add_arguments_cost budget input.arguments
  budget ← add_contextual_data_cost budget input.contextual_data
  budget ← add_bytes_cost budget input.approval_evidence
  budget ← add_bytes_cost budget input.delegation_evidence
  add_fixed_field_cost budget uint64_bytes

unfoldable pub add_batch_item_cost : BudgetCounter → BatchCheckItem → Result BudgetCounter
add_batch_item_cost budget item = do
  budget ← add_entity_ref_cost budget item.subject
  budget ← add_entity_ref_cost budget item.resource
  budget ← add_text_cost budget item.action
  add_arguments_cost budget item.arguments

unfoldable pub add_batch_request_cost :
    BudgetCounter → BatchCheckRequestInput → Result BudgetCounter
add_batch_request_cost budget input = do
  budget ← add_text_cost budget input.namespace
  budget ← add_selector_cost budget input.selector
  budget ← add budget collection_metadata_bytes
  budget ← for_each add_batch_item_cost budget input.items
  budget ← add_contextual_data_cost budget input.contextual_data
  budget ← add_bytes_cost budget input.approval_evidence
  budget ← add_bytes_cost budget input.delegation_evidence
  add_fixed_field_cost budget uint64_bytes

unfoldable pub add_tuple_key_cost : BudgetCounter → TupleKey → Result BudgetCounter
add_tuple_key_cost budget key = add_tuple_cost budget key.tuple

unfoldable pub add_attribute_key_cost : BudgetCounter → AttributeKey → Result BudgetCounter
add_attribute_key_cost budget key = do
  budget ← add_entity_ref_cost budget key.entity
  add_attribute_path_cost budget key.path

unfoldable pub add_write_data_request_cost :
    BudgetCounter → WriteDataRequestInput → Result BudgetCounter
unfolding add_tuple_key_cost add_attribute_key_cost
add_write_data_request_cost budget input = do
  budget ←
      for_each add_text_cost budget
        (input.namespace ∷ input.validation_revision_id ∷ input.idempotency_key ∷ [])
  budget ← add_fixed_field_cost budget uint64_bytes
  budget ← add_many budget (pos 4) collection_metadata_bytes
  budget ← for_each add_relationship_tuple_cost budget input.tuple_writes
  budget ← for_each add_tuple_key_cost budget input.tuple_deletes
  budget ← for_each add_attribute_cost budget input.attribute_writes
  for_each add_attribute_key_cost budget input.attribute_deletes

unfoldable pub add_identifiers_cost : BudgetCounter → List Text → Result BudgetCounter
add_identifiers_cost budget values = do
  budget ← add budget collection_metadata_bytes
  for_each add_text_cost budget values

unfoldable pub add_evidence_binding_cost : BudgetCounter → EvidenceBinding → Result BudgetCounter
add_evidence_binding_cost budget binding = do
  budget ← add_fixed_field_cost budget digest_bytes
  budget ← add_text_cost budget binding.namespace
  budget ← add_selector_cost budget binding.selector
  budget ← add_text_cost budget binding.revision_id
  budget ← add_fixed_field_cost budget uint64_bytes
  budget ← add_fixed_field_cost budget uint64_bytes
  budget ← add_fixed_field_cost budget timestamp_bytes
  add_fixed_field_cost budget digest_bytes

unfoldable pub add_approval_verification_request_cost :
    BudgetCounter → EvidenceBinding → List Text → Text → Result BudgetCounter
add_approval_verification_request_cost budget binding requirement_ids evidence = do
  budget ← add_evidence_binding_cost budget binding
  budget ← add_identifiers_cost budget requirement_ids
  add_bytes_cost budget evidence

unfoldable pub add_delegation_verification_request_cost :
    BudgetCounter → EvidenceBinding → Text → Result BudgetCounter
add_delegation_verification_request_cost budget binding evidence = do
  budget ← add_evidence_binding_cost budget binding
  add_bytes_cost budget evidence

unfoldable pub add_publish_request_cost : BudgetCounter → Text → Text → Text → Result BudgetCounter
add_publish_request_cost budget namespace source_name source = do
  budget ← add_text_cost budget namespace
  budget ← add_text_cost budget source_name
  add_bytes_cost budget source

unfoldable pub add_caller_attribute_cost : BudgetCounter → Text × Text → Result BudgetCounter
add_caller_attribute_cost budget (key, value) = do
  budget ← add_text_cost budget key
  add_text_cost budget value

unfoldable pub add_caller_cost : BudgetCounter → Text → List (Text × Text) → Result BudgetCounter
unfolding add_caller_attribute_cost
add_caller_cost budget id attributes = do
  budget ← add_text_cost budget id
  budget ← add budget collection_metadata_bytes
  for_each add_caller_attribute_cost budget attributes

unfoldable pub add_grant_cost : BudgetCounter → Grant → Result BudgetCounter
add_grant_cost budget grant = do
  budget ← add_text_cost budget grant.namespace_pattern
  budget ← add budget collection_metadata_bytes
  for_each add_text_cost budget grant.capabilities

unfoldable pub add_caller_authorization_cost : BudgetCounter → List Grant → Result BudgetCounter
add_caller_authorization_cost budget grants = do
  budget ← add budget collection_metadata_bytes
  for_each add_grant_cost budget grants
