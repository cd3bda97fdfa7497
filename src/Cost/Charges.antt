-- ===== src/Cost/Charges.antt =====
-- What the entry points of cost.go charge: their specification's bytes, exactly.
use policy_engine.Prelude.{ℕ, ◌+◌, ◌≤◌, ◌≡◌, List, Bool}
use policy_engine.Prelude.Text.{Text}
use policy_engine.Budget.Laws.{counter, charge}
use policy_engine.Model.Requests.{CheckRequestInput, BatchCheckRequestInput, WriteDataRequestInput}
use policy_engine.Model.Records.{
  EvidenceBinding, Grant, DecisionResult, ExplainStep, RevisionMetadata, Activation, StateEvent,
  ComponentStatus,
}
use policy_engine.Cost.Requests.{
  add_check_request_cost, add_batch_request_cost, add_write_data_request_cost,
  add_approval_verification_request_cost, add_delegation_verification_request_cost,
  add_publish_request_cost, add_caller_cost, add_caller_authorization_cost,
}
use policy_engine.Cost.Responses.{
  add_decision_result_value_cost, add_explain_response_cost, add_batch_response_cost,
  add_status_response_cost, add_revision_page_cost, add_activation_history_page_cost,
  add_event_page_cost,
}
use policy_engine.Cost.Sizes.{
  sum_of, text_size, path_size, check_request_size, batch_request_size, write_data_size,
  evidence_binding_size, caller_size, grant_size, decision_result_size, explain_step_size,
  component_status_size, revision_metadata_size, activation_size, state_event_size,
}
use policy_engine.Cost.Exact.Requests.{
  check_request-Costs, batch_request-Costs, write_data-Costs, approval_verification-Costs,
  delegation_verification-Costs, publish_request-Costs, caller-Costs, caller_authorization-Costs,
}
use policy_engine.Cost.Exact.Responses.{
  decision_result-Costs, explain_response-Costs, batch_response-Costs, status_response-Costs,
  pages-Costs,
}

-- At a counter whose use is within its limit, a check request is charged exactly its size: the
-- counter grows by it if that fits, and otherwise the request is refused with RESOURCE_EXHAUSTED.
pub check_request-charge :
    (input : CheckRequestInput) (limit used : ℕ)
    → used ≤ limit
    → add_check_request_cost (counter used limit) input
      ≡ charge limit used (check_request_size input)
check_request-charge input limit used h = (check_request-Costs input).exact limit used h

-- At a counter whose use is within its limit, a batch request is charged exactly its size, all its
-- items included.
pub batch_request-charge :
    (input : BatchCheckRequestInput) (limit used : ℕ)
    → used ≤ limit
    → add_batch_request_cost (counter used limit) input
      ≡ charge limit used (batch_request_size input)
batch_request-charge input limit used h = (batch_request-Costs input).exact limit used h

-- At a counter whose use is within its limit, a data write is charged exactly its size: its header,
-- the four collections and every write and deletion.
pub write_data-charge :
    (input : WriteDataRequestInput) (limit used : ℕ)
    → used ≤ limit
    → add_write_data_request_cost (counter used limit) input
      ≡ charge limit used (write_data_size input)
write_data-charge input limit used h = (write_data-Costs input).exact limit used h

-- At a counter whose use is within its limit, the two verifications of evidence are charged the
-- binding and the evidence, that of an approval also the identifiers of its requirements.
pub verification-charge :
    (binding : EvidenceBinding) (requirement_ids : List Text) (evidence : Text) (limit used : ℕ)
    → used ≤ limit
    → (add_approval_verification_request_cost (counter used limit) binding requirement_ids evidence
        ≡ charge limit used
            (evidence_binding_size binding + path_size requirement_ids + text_size evidence))
      × (add_delegation_verification_request_cost (counter used limit) binding evidence
          ≡ charge limit used (evidence_binding_size binding + text_size evidence))
verification-charge binding requirement_ids evidence limit used h = (
  (approval_verification-Costs binding requirement_ids evidence).exact limit used h,
  (delegation_verification-Costs binding evidence).exact limit used h,
)

-- At a counter whose use is within its limit, a caller is charged its identity and attributes, and
-- its authorization the patterns and the capabilities of all grants.
pub caller-charge :
    (id : Text) (attributes : List (Text × Text)) (grants : List Grant) (limit used : ℕ)
    → used ≤ limit
    → (add_caller_cost (counter used limit) id attributes
        ≡ charge limit used (caller_size id attributes))
      × (add_caller_authorization_cost (counter used limit) grants
          ≡ charge limit used (8 + sum_of grant_size grants))
caller-charge id attributes grants limit used h = (
  (caller-Costs id attributes).exact limit used h,
  (caller_authorization-Costs grants).exact limit used h,
)

-- At a counter whose use is within its limit, the responses of a check, of an explanation and of a
-- batch are charged the sizes of all their results and steps.
pub decision-charge :
    (result : DecisionResult) (steps : List ExplainStep) (results : List DecisionResult)
    (limit used : ℕ)
    → used ≤ limit
    → (add_decision_result_value_cost (counter used limit) result
        ≡ charge limit used (decision_result_size result))
      × (add_explain_response_cost (counter used limit) result steps
          ≡ charge limit used (decision_result_size result + (8 + sum_of explain_step_size steps)))
      × (add_batch_response_cost (counter used limit) results
          ≡ charge limit used (8 + sum_of decision_result_size results))
decision-charge result steps results limit used h = (
  (decision_result-Costs result).exact limit used h,
  (explain_response-Costs result steps).exact limit used h,
  (batch_response-Costs results).exact limit used h,
)

-- At a counter whose use is within its limit, a page of revisions, of activations or of events is
-- charged the sizes of its items and of its cursor.
pub page-charge :
    (revisions : List RevisionMetadata) (activations : List Activation) (events : List StateEvent)
    (next_cursor : Text) (limit used : ℕ)
    → used ≤ limit
    → (add_revision_page_cost (counter used limit) revisions next_cursor
        ≡ charge limit used (8 + (text_size next_cursor + sum_of revision_metadata_size revisions)))
      × (add_activation_history_page_cost (counter used limit) activations next_cursor
          ≡ charge limit used (8 + (text_size next_cursor + sum_of activation_size activations)))
      × (add_event_page_cost (counter used limit) events next_cursor
          ≡ charge limit used (8 + (text_size next_cursor + sum_of state_event_size events)))
page-charge revisions activations events next_cursor limit used h =
    let (r, a, e) = pages-Costs revisions activations events next_cursor in
    (r.exact limit used h, a.exact limit used h, e.exact limit used h)

-- At a counter whose use is within its limit, a publication is charged its three texts, and a status
-- response its components.
pub publish_status-charge :
    (namespace source_name source : Text) (ready : Bool) (components : List ComponentStatus)
    (limit used : ℕ)
    → used ≤ limit
    → (add_publish_request_cost (counter used limit) namespace source_name source
        ≡ charge limit used (text_size namespace + text_size source_name + text_size source))
      × (add_status_response_cost (counter used limit) ready components
          ≡ charge limit used (9 + (8 + sum_of component_status_size components)))
publish_status-charge namespace source_name source ready components limit used h = (
  (publish_request-Costs namespace source_name source).exact limit used h,
  (status_response-Costs ready components).exact limit used h,
)
