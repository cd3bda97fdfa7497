-- ===== src/Cost/Exact/Responses.antt =====
-- The routines that bound a response, a stored record or a page charge their sizes.
use policy_engine.Prelude.{ℕ, ◌+◌, List, [], ◌∷◌, Bool, arith, not}
use policy_engine.Prelude.Int.{pos}
use policy_engine.Prelude.Text.{Text, text_eq}
use policy_engine.Budget.Laws.{Costs, add-Costs, then-Costs, eq-Costs}
use policy_engine.Model.Records.{
  DecisionResult, ExplainStep, RevisionMetadata, Activation, StateEvent, ComponentStatus,
}
use policy_engine.Cost.Parts.{for_each, add_fixed_field_cost}
use policy_engine.Cost.Responses.{
  zero_digest, add_decision_result_cost, add_decision_result_value_cost, add_explain_step_cost,
  add_explain_response_cost, add_revision_metadata_cost, add_revision_page_cost,
  add_activation_cost, add_activation_history_page_cost, add_state_event_cost, add_event_page_cost,
  add_component_status_cost, add_status_response_cost, add_batch_response_cost,
}
use policy_engine.Cost.Sizes.{
  sum_of, text_size, decision_result_size, explain_step_size, revision_metadata_size,
  activation_size, state_event_size, component_status_size,
}
use policy_engine.Cost.Exact.Parts.{for_each-Costs, if-Costs, text-Costs, fixed-Costs}
use policy_engine.Cost.Exact.Requests.{texts-Costs, identifiers-Costs}

-- The loop over the fixed sizes.
fixed_fields-Costs :
    (sizes : List ℕ)
    → Costs
        (λ budget. for_each (λ b n. add_fixed_field_cost b (pos n)) budget sizes)
        (sum_of (λ n. 8 + n) sizes)
fixed_fields-Costs = for_each-Costs (λ b n. add_fixed_field_cost b (pos n)) (λ n. 8 + n) fixed-Costs

pub decision_result-Costs :
    (result : DecisionResult)
    → Costs (λ budget. add_decision_result_value_cost budget result) (decision_result_size result)
unfolding add_decision_result_value_cost add_decision_result_cost sum_of for_each
decision_result-Costs result =
    eq-Costs
      (then-Costs (texts-Costs (result.decision_id ∷ result.reason_code ∷ result.revision_id ∷ []))
        (then-Costs (fixed_fields-Costs (1 ∷ 8 ∷ 8 ∷ 40 ∷ 1 ∷ 1 ∷ 1 ∷ [])) (
          then-Costs
            (if-Costs (not (text_eq result.approval_binding_digest zero_digest)) (fixed-Costs 32))
            (identifiers-Costs result.requirements))))
      (ground arith)

explain_step-Costs :
    (step : ExplainStep)
    → Costs (λ budget. add_explain_step_cost budget step) (explain_step_size step)
unfolding add_explain_step_cost
explain_step-Costs step =
    eq-Costs
      (then-Costs (text-Costs step.schema_path)
        (then-Costs (text-Costs step.operator) (fixed-Costs 1)))
      (omega arith)

pub explain_response-Costs :
    (result : DecisionResult) (steps : List ExplainStep)
    → Costs
        (λ budget. add_explain_response_cost budget result steps)
        (decision_result_size result + (8 + sum_of explain_step_size steps))
unfolding add_explain_response_cost
explain_response-Costs result steps = then-Costs (decision_result-Costs result) (
    then-Costs (add-Costs 8)
      (for_each-Costs add_explain_step_cost explain_step_size explain_step-Costs steps))

revision_metadata-Costs :
    (revision : RevisionMetadata)
    → Costs (λ budget. add_revision_metadata_cost budget revision) (revision_metadata_size revision)
unfolding add_revision_metadata_cost
revision_metadata-Costs revision =
    eq-Costs
      (then-Costs (text-Costs revision.namespace) (then-Costs (fixed-Costs 64) (fixed-Costs 40)))
      (omega arith)

activation-Costs :
    (activation : Activation)
    → Costs (λ budget. add_activation_cost budget activation) (activation_size activation)
unfolding add_activation_cost sum_of
activation-Costs activation =
    eq-Costs
      (then-Costs
        (texts-Costs (activation.namespace ∷ activation.slot ∷ activation.revision_id ∷ []))
        (then-Costs (fixed-Costs 8) (fixed-Costs 40)))
      (omega arith)

state_event-Costs :
    (event : StateEvent)
    → Costs (λ budget. add_state_event_cost budget event) (state_event_size event)
unfolding add_state_event_cost sum_of
state_event-Costs event =
    eq-Costs
      (then-Costs
        (texts-Costs (event.namespace ∷ event.cursor ∷ event.revision_id ∷ event.slot ∷ []))
        (then-Costs (fixed-Costs 1)
          (then-Costs (fixed-Costs 8) (then-Costs (fixed-Costs 8) (fixed-Costs 40)))))
      (omega arith)

component_status-Costs :
    (component : ComponentStatus)
    → Costs (λ budget. add_component_status_cost budget component) (component_status_size component)
unfolding add_component_status_cost
component_status-Costs component =
    eq-Costs
      (then-Costs (text-Costs component.name)
        (then-Costs (fixed-Costs 1) (text-Costs component.reason_code)))
      (omega arith)

pub batch_response-Costs :
    (results : List DecisionResult)
    → Costs
        (λ budget. add_batch_response_cost budget results)
        (8 + sum_of decision_result_size results)
unfolding add_batch_response_cost
batch_response-Costs results = then-Costs (add-Costs 8) (
    for_each-Costs add_decision_result_value_cost decision_result_size decision_result-Costs
      results)

pub status_response-Costs :
    (ready : Bool) (components : List ComponentStatus)
    → Costs
        (λ budget. add_status_response_cost budget ready components)
        (9 + (8 + sum_of component_status_size components))
unfolding add_status_response_cost
status_response-Costs ready components = then-Costs (fixed-Costs 1) (
    then-Costs (add-Costs 8) (
      for_each-Costs add_component_status_cost component_status_size component_status-Costs
        components))

-- The three kinds of page: the items, the cursor of the next page and the collection.
pub pages-Costs :
    (revisions : List RevisionMetadata) (activations : List Activation) (events : List StateEvent)
    (next_cursor : Text)
    → Costs
        (λ budget. add_revision_page_cost budget revisions next_cursor)
        (8 + (text_size next_cursor + sum_of revision_metadata_size revisions))
      × Costs
          (λ budget. add_activation_history_page_cost budget activations next_cursor)
          (8 + (text_size next_cursor + sum_of activation_size activations))
      × Costs
          (λ budget. add_event_page_cost budget events next_cursor)
          (8 + (text_size next_cursor + sum_of state_event_size events))
unfolding add_revision_page_cost add_activation_history_page_cost add_event_page_cost
pages-Costs revisions activations events next_cursor = (
  then-Costs (add-Costs 8) (
      then-Costs (text-Costs next_cursor) (
        for_each-Costs add_revision_metadata_cost revision_metadata_size revision_metadata-Costs
          revisions)),
  then-Costs (add-Costs 8) (
      then-Costs (text-Costs next_cursor)
        (for_each-Costs add_activation_cost activation_size activation-Costs activations)),
  then-Costs (add-Costs 8) (
      then-Costs (text-Costs next_cursor)
        (for_each-Costs add_state_event_cost state_event_size state_event-Costs events)),
)
