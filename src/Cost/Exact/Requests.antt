-- ===== src/Cost/Exact/Requests.antt =====
-- The routines that bound a request charge their sizes.
use policy_engine.Prelude.{◌+◌, List, [], ◌∷◌, arith}
use policy_engine.Prelude.Text.{Text}
use policy_engine.Budget.Laws.{Costs, add-Costs, then-Costs, eq-Costs, add_many-Costs}
use policy_engine.Model.Data.{TupleKey, AttributeKey}
use policy_engine.Model.Requests.{
  Selector, CheckRequestInput, BatchCheckItem, BatchCheckRequestInput, WriteDataRequestInput,
}
use policy_engine.Model.Records.{EvidenceBinding, Grant}
use policy_engine.Cost.Parts.{
  for_each, add_text_cost, add_relationship_tuple_cost, add_attribute_cost,
}
use policy_engine.Cost.Requests.{
  add_selector_cost, add_check_request_cost, add_batch_item_cost, add_batch_request_cost,
  add_tuple_key_cost, add_attribute_key_cost, add_write_data_request_cost, add_identifiers_cost,
  add_evidence_binding_cost, add_approval_verification_request_cost,
  add_delegation_verification_request_cost, add_publish_request_cost, add_caller_attribute_cost,
  add_caller_cost, add_grant_cost, add_caller_authorization_cost,
}
use policy_engine.Cost.Sizes.{
  sum_of, text_size, path_size, relationship_size, attribute_size, selector_size,
  check_request_size, batch_item_size, batch_request_size, tuple_key_size, attribute_key_size,
  write_data_size, evidence_binding_size, caller_size, grant_size,
}
use policy_engine.Cost.Exact.Parts.{
  for_each-Costs, text-Costs, bytes-Costs, fixed-Costs, entity-Costs, path-Costs, tuple-Costs,
  relationship-Costs, attribute-Costs, contextual-Costs, arguments-Costs,
}

selector-Costs :
    (selector : Selector)
    → Costs (λ budget. add_selector_cost budget selector) (selector_size selector)
unfolding add_selector_cost
selector-Costs selector = then-Costs (text-Costs selector.slot) (text-Costs selector.revision_id)

-- A check request.
pub check_request-Costs :
    (input : CheckRequestInput)
    → Costs (λ budget. add_check_request_cost budget input) (check_request_size input)
unfolding add_check_request_cost
check_request-Costs input =
    eq-Costs
      (then-Costs (text-Costs input.namespace) (
        then-Costs (selector-Costs input.selector) (
          then-Costs (entity-Costs input.subject) (
            then-Costs (entity-Costs input.resource) (
              then-Costs (text-Costs input.action) (
                then-Costs (arguments-Costs input.arguments) (
                  then-Costs (contextual-Costs input.contextual_data) (
                    then-Costs (bytes-Costs input.approval_evidence)
                      (then-Costs (bytes-Costs input.delegation_evidence) (fixed-Costs 8))))))))))
      (omega arith)

batch_item-Costs :
    (item : BatchCheckItem)
    → Costs (λ budget. add_batch_item_cost budget item) (batch_item_size item)
unfolding add_batch_item_cost
batch_item-Costs item =
    eq-Costs
      (then-Costs (entity-Costs item.subject) (
        then-Costs (entity-Costs item.resource)
          (then-Costs (text-Costs item.action) (arguments-Costs item.arguments))))
      (omega arith)

pub batch_request-Costs :
    (input : BatchCheckRequestInput)
    → Costs (λ budget. add_batch_request_cost budget input) (batch_request_size input)
unfolding add_batch_request_cost
batch_request-Costs input =
    eq-Costs
      (then-Costs (text-Costs input.namespace) (
        then-Costs (selector-Costs input.selector) (
          then-Costs (add-Costs 8) (
            then-Costs
              (for_each-Costs add_batch_item_cost batch_item_size batch_item-Costs input.items)
              (then-Costs (contextual-Costs input.contextual_data) (
                then-Costs (bytes-Costs input.approval_evidence)
                  (then-Costs (bytes-Costs input.delegation_evidence) (fixed-Costs 8))))))))
      (omega arith)

attribute_key-Costs :
    (key : AttributeKey)
    → Costs (λ budget. add_attribute_key_cost budget key) (attribute_key_size key)
unfolding add_attribute_key_cost
attribute_key-Costs key = then-Costs (entity-Costs key.entity) (path-Costs key.path)

tuple_key-Costs :
    (key : TupleKey) → Costs (λ budget. add_tuple_key_cost budget key) (tuple_key_size key)
unfolding add_tuple_key_cost
tuple_key-Costs key = tuple-Costs key.tuple

pub texts-Costs :
    (texts : List Text)
    → Costs (λ budget. for_each add_text_cost budget texts) (sum_of text_size texts)
texts-Costs = for_each-Costs add_text_cost text_size text-Costs

pub write_data-Costs :
    (input : WriteDataRequestInput)
    → Costs (λ budget. add_write_data_request_cost budget input) (write_data_size input)
unfolding add_write_data_request_cost sum_of
write_data-Costs input =
    eq-Costs
      (then-Costs
        (texts-Costs (input.namespace ∷ input.validation_revision_id ∷ input.idempotency_key ∷ []))
        (then-Costs (fixed-Costs 8) (
          then-Costs (add_many-Costs 4 8 (omega arith)) (
            then-Costs
              (for_each-Costs add_relationship_tuple_cost relationship_size relationship-Costs
                input.tuple_writes)
              (then-Costs
                (for_each-Costs add_tuple_key_cost tuple_key_size tuple_key-Costs
                  input.tuple_deletes)
                (then-Costs
                  (for_each-Costs add_attribute_cost attribute_size attribute-Costs
                    input.attribute_writes)
                  (for_each-Costs add_attribute_key_cost attribute_key_size attribute_key-Costs
                    input.attribute_deletes)))))))
      (omega arith)

pub identifiers-Costs :
    (values : List Text) → Costs (λ budget. add_identifiers_cost budget values) (path_size values)
unfolding add_identifiers_cost
identifiers-Costs values = then-Costs (add-Costs 8) (texts-Costs values)

evidence_binding-Costs :
    (binding : EvidenceBinding)
    → Costs (λ budget. add_evidence_binding_cost budget binding) (evidence_binding_size binding)
unfolding add_evidence_binding_cost
evidence_binding-Costs binding =
    eq-Costs
      (then-Costs (fixed-Costs 32) (
        then-Costs (text-Costs binding.namespace) (
          then-Costs (selector-Costs binding.selector) (
            then-Costs (text-Costs binding.revision_id) (
              then-Costs (fixed-Costs 8)
                (then-Costs (fixed-Costs 8) (then-Costs (fixed-Costs 40) (fixed-Costs 32))))))))
      (omega arith)

pub approval_verification-Costs :
    (binding : EvidenceBinding) (requirement_ids : List Text) (evidence : Text)
    → Costs
        (λ budget. add_approval_verification_request_cost budget binding requirement_ids evidence)
        (evidence_binding_size binding + path_size requirement_ids + text_size evidence)
unfolding add_approval_verification_request_cost
approval_verification-Costs binding requirement_ids evidence =
    eq-Costs
      (then-Costs (evidence_binding-Costs binding)
        (then-Costs (identifiers-Costs requirement_ids) (bytes-Costs evidence)))
      (omega arith)

pub delegation_verification-Costs :
    (binding : EvidenceBinding) (evidence : Text)
    → Costs
        (λ budget. add_delegation_verification_request_cost budget binding evidence)
        (evidence_binding_size binding + text_size evidence)
unfolding add_delegation_verification_request_cost
delegation_verification-Costs binding evidence =
    then-Costs (evidence_binding-Costs binding) (bytes-Costs evidence)

pub publish_request-Costs :
    (namespace source_name source : Text)
    → Costs
        (λ budget. add_publish_request_cost budget namespace source_name source)
        (text_size namespace + text_size source_name + text_size source)
unfolding add_publish_request_cost
publish_request-Costs namespace source_name source =
    eq-Costs
      (then-Costs (text-Costs namespace) (then-Costs (text-Costs source_name) (bytes-Costs source)))
      (omega arith)

caller_attribute-Costs :
    (entry : Text × Text)
    → Costs
        (λ budget. add_caller_attribute_cost budget entry)
        (text_size entry.0 + text_size entry.1)
unfolding add_caller_attribute_cost
caller_attribute-Costs (key, value) = then-Costs (text-Costs key) (text-Costs value)

pub caller-Costs :
    (id : Text) (attributes : List (Text × Text))
    → Costs (λ budget. add_caller_cost budget id attributes) (caller_size id attributes)
unfolding add_caller_cost
caller-Costs id attributes =
    eq-Costs
      (then-Costs (text-Costs id) (
        then-Costs (add-Costs 8) (
          for_each-Costs add_caller_attribute_cost (λ entry. text_size entry.0 + text_size entry.1)
            caller_attribute-Costs attributes)))
      (omega arith)

grant-Costs : (grant : Grant) → Costs (λ budget. add_grant_cost budget grant) (grant_size grant)
unfolding add_grant_cost
grant-Costs grant =
    eq-Costs
      (then-Costs (text-Costs grant.namespace_pattern)
        (then-Costs (add-Costs 8) (texts-Costs grant.capabilities)))
      (omega arith)

pub caller_authorization-Costs :
    (grants : List Grant)
    → Costs (λ budget. add_caller_authorization_cost budget grants) (8 + sum_of grant_size grants)
unfolding add_caller_authorization_cost
caller_authorization-Costs grants =
    then-Costs (add-Costs 8) (for_each-Costs add_grant_cost grant_size grant-Costs grants)
