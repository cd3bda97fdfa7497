-- ===== src/Cost/Responses.antt =====
-- The routines of cost.go that bound a response, a stored record or a page of them.
use policy_engine.Prelude.{List, [], ◌∷◌, Bool, false, if◌then◌else◌, not, replicate}
use policy_engine.Prelude.Int.{pos}
use policy_engine.Prelude.Text.{Text, text_eq}
use policy_engine.Errors.{Result, ok, ◌>>=◌}
use policy_engine.Budget.{BudgetCounter, add}
use policy_engine.Model.Records.{
  DecisionResultInput, DecisionResult, ExplainStep, RevisionMetadata, Activation, StateEvent,
  ComponentStatus,
}
use policy_engine.Cost.Parts.{
  for_each, collection_metadata_bytes, uint64_bytes, timestamp_bytes, bool_bytes, enum_bytes,
  add_text_cost, add_fixed_field_cost,
}
use policy_engine.Cost.Requests.{add_identifiers_cost}

-- `[sha256.Size]byte{}`
abbrev pub zero_digest : Text
zero_digest = replicate 32 0

unfoldable pub add_decision_result_cost : BudgetCounter → DecisionResultInput → Result BudgetCounter
add_decision_result_cost budget input = do
  budget ←
      for_each add_text_cost budget (input.decision_id ∷ input.reason_code ∷ input.revision_id ∷ [])
  budget ← for_each add_fixed_field_cost budget (
      enum_bytes ∷ uint64_bytes ∷ uint64_bytes ∷ timestamp_bytes ∷ bool_bytes ∷ bool_bytes
      ∷ bool_bytes ∷ [])
  budget ←
      if not (text_eq input.approval_binding_digest zero_digest)
      then add_fixed_field_cost budget (pos 32)
      else ok budget
  add_identifiers_cost budget input.requirements

unfoldable pub add_decision_result_value_cost :
    BudgetCounter → DecisionResult → Result BudgetCounter
add_decision_result_value_cost budget result = add_decision_result_cost budget (record {
  decision = result.decision;
  decision_id = result.decision_id;
  reason_code = result.reason_code;
  revision_id = result.revision_id;
  slot_generation = 0;
  data_generation = 0;
  evaluated_at = 0;
  requirements = result.requirements;
  approval_binding_digest = result.approval_binding_digest;
  used_contextual_data = false;
  used_approval = false;
  used_delegation = false;
})

unfoldable pub add_explain_step_cost : BudgetCounter → ExplainStep → Result BudgetCounter
add_explain_step_cost budget step = do
  budget ← add_text_cost budget step.schema_path
  budget ← add_text_cost budget step.operator
  add_fixed_field_cost budget bool_bytes

unfoldable pub add_explain_response_cost :
    BudgetCounter → DecisionResult → List ExplainStep → Result BudgetCounter
unfolding add_explain_step_cost
add_explain_response_cost budget result steps = do
  budget ← add_decision_result_value_cost budget result
  budget ← add budget collection_metadata_bytes
  for_each add_explain_step_cost budget steps

unfoldable pub add_revision_metadata_cost : BudgetCounter → RevisionMetadata → Result BudgetCounter
add_revision_metadata_cost budget revision = do
  budget ← add_text_cost budget revision.namespace
  budget ← add_fixed_field_cost budget (pos 64)
  add_fixed_field_cost budget timestamp_bytes

unfoldable pub add_revision_page_cost :
    BudgetCounter → List RevisionMetadata → Text → Result BudgetCounter
add_revision_page_cost budget revisions next_cursor = do
  budget ← add budget collection_metadata_bytes
  budget ← add_text_cost budget next_cursor
  for_each add_revision_metadata_cost budget revisions

unfoldable pub add_activation_cost : BudgetCounter → Activation → Result BudgetCounter
add_activation_cost budget activation = do
  budget ←
      for_each add_text_cost budget
        (activation.namespace ∷ activation.slot ∷ activation.revision_id ∷ [])
  budget ← add_fixed_field_cost budget uint64_bytes
  add_fixed_field_cost budget timestamp_bytes

unfoldable pub add_activation_history_page_cost :
    BudgetCounter → List Activation → Text → Result BudgetCounter
add_activation_history_page_cost budget activations next_cursor = do
  budget ← add budget collection_metadata_bytes
  budget ← add_text_cost budget next_cursor
  for_each add_activation_cost budget activations

unfoldable pub add_state_event_cost : BudgetCounter → StateEvent → Result BudgetCounter
add_state_event_cost budget event = do
  budget ←
      for_each add_text_cost budget
        (event.namespace ∷ event.cursor ∷ event.revision_id ∷ event.slot ∷ [])
  budget ← add_fixed_field_cost budget enum_bytes
  budget ← add_fixed_field_cost budget uint64_bytes
  budget ← add_fixed_field_cost budget uint64_bytes
  add_fixed_field_cost budget timestamp_bytes

unfoldable pub add_event_page_cost : BudgetCounter → List StateEvent → Text → Result BudgetCounter
add_event_page_cost budget events next_cursor = do
  budget ← add budget collection_metadata_bytes
  budget ← add_text_cost budget next_cursor
  for_each add_state_event_cost budget events

unfoldable pub add_component_status_cost : BudgetCounter → ComponentStatus → Result BudgetCounter
add_component_status_cost budget component = do
  budget ← add_text_cost budget component.name
  budget ← add_fixed_field_cost budget enum_bytes
  add_text_cost budget component.reason_code

unfoldable pub add_status_response_cost :
    BudgetCounter → Bool → List ComponentStatus → Result BudgetCounter
add_status_response_cost budget ready components = do
  budget ← add_fixed_field_cost budget bool_bytes
  budget ← add budget collection_metadata_bytes
  for_each add_component_status_cost budget components

unfoldable pub add_batch_response_cost : BudgetCounter → List DecisionResult → Result BudgetCounter
add_batch_response_cost budget results = do
  budget ← add budget collection_metadata_bytes
  for_each add_decision_result_value_cost budget results
