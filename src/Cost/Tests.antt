-- ===== src/Cost/Tests.antt =====
-- The cost routines, and the batch's budget, at concrete requests.
use native.Mathlib.Omega.{arith}
use mathlib.Core.List.{Permᴰ}
use policy_engine.Prelude.{◌+◌, ◌^◌, ◌≡◌, refl, true, false, [], ◌∷◌, none}
use policy_engine.Prelude.Int.{pos, wrap_int}
use policy_engine.Prelude.Text.{codes}
use policy_engine.Errors.{err, resource_exhausted}
use policy_engine.Budget.{add_many}
use policy_engine.Budget.Laws.{counter, charge, add_many-charge}
use policy_engine.Model.Data.{EntityRef, Value, ContextualData, kind_string, kind_null}
use policy_engine.Model.Requests.{
  Selector, CheckRequestInput, BatchCheckItem, BatchCheckRequestInput, WriteDataRequestInput,
}
use policy_engine.Model.Records.{
  EvidenceBinding, Grant, DecisionResult, allow, ExplainStep, RevisionMetadata, ComponentStatus,
  ready,
}
use policy_engine.Cost.Parts.{add_arguments_cost}
use policy_engine.Cost.Requests.{
  add_check_request_cost, add_batch_request_cost, add_write_data_request_cost,
  add_approval_verification_request_cost, add_delegation_verification_request_cost,
  add_publish_request_cost, add_caller_cost, add_caller_authorization_cost,
}
use policy_engine.Cost.Responses.{
  add_decision_result_value_cost, add_explain_response_cost, add_batch_response_cost,
  add_status_response_cost, add_revision_page_cost, add_activation_history_page_cost,
  add_event_page_cost,
}
use policy_engine.Cost.Sizes.{
  sum_of, text_size, path_size, check_request_size, batch_request_size, write_data_size,
  evidence_binding_size, caller_size, grant_size, decision_result_size, explain_step_size,
  component_status_size, revision_metadata_size, activation_size, state_event_size,
}
use policy_engine.Cost.Charges.{
  check_request-charge, batch_request-charge, write_data-charge, verification-charge, caller-charge,
  decision-charge, page-charge, publish_status-charge,
}
use policy_engine.Cost.Order.{costs_unordered}

abbrev alice : EntityRef
alice = record { type_name = codes "user"; id = codes "alice" }

abbrev word : Value
word = record { kind = kind_string; text = codes "secret"; integer = pos 0; boolean = false }

abbrev nothing : Value
nothing = record { kind = kind_null; text = []; integer = pos 0; boolean = false }

abbrev contextual : ContextualData
contextual = record {
  tuples = [];
  attributes = record { entity = alice; path = codes "team" ∷ []; value = word } ∷ [];
}

abbrev slot : Selector
slot = record { slot = codes "live"; revision_id = [] }

abbrev check : CheckRequestInput
check = record {
  namespace = codes "acme";
  selector = slot;
  subject = alice;
  resource = alice;
  action = codes "read";
  arguments = (codes "a", word) ∷ [];
  contextual_data = contextual;
  approval_evidence = [];
  delegation_evidence = [];
  minimum_generation = 0;
}

abbrev item : BatchCheckItem
item = record { subject = alice; resource = alice; action = codes "read"; arguments = [] }

abbrev batch : BatchCheckRequestInput
batch = record {
  namespace = codes "acme";
  selector = slot;
  items = item ∷ item ∷ [];
  contextual_data = contextual;
  approval_evidence = [];
  delegation_evidence = [];
  minimum_generation = 0;
}

abbrev result : DecisionResult
result = record {
  valid_result = true;
  decision = allow;
  decision_id = codes "d";
  reason_code = codes "granted";
  revision_id = codes "r";
  slot_generation = 1;
  data_generation = 1;
  evaluated_at = 1;
  requirements = [];
  approval_binding_digest = [];
  has_approval_binding = false;
  used_contextual_data = false;
  used_approval = false;
  used_delegation = false;
}

abbrev write : WriteDataRequestInput
write = record {
  namespace = codes "acme";
  validation_revision_id = codes "r";
  expected_generation = 1;
  idempotency_key = codes "k";
  tuple_writes = [];
  tuple_deletes = [];
  attribute_writes = contextual.attributes;
  attribute_deletes = record { entity = alice; path = codes "team" ∷ [] } ∷ [];
}

abbrev binding : EvidenceBinding
binding = record {
  caller = record { digest = none; valid = true };
  namespace = codes "acme";
  selector = slot;
  revision_id = codes "r";
  slot_generation = 1;
  data_generation = 1;
  evaluated_at = 1;
  fingerprint = record { digest = none; valid = true };
  valid_binding = true;
}

abbrev grant : Grant
grant = record { namespace_pattern = codes "acme"; capabilities = codes "check" ∷ [] }

abbrev step : ExplainStep
step = record { schema_path = codes "p"; operator = codes "and"; outcome = true }

abbrev status : ComponentStatus
status = record { name = codes "store"; state = ready; reason_code = [] }

abbrev published : RevisionMetadata
published = record { namespace = codes "acme"; id = codes "r"; published_at = 1 }

check_request-charge_example :
    add_check_request_cost (counter 5 4096) check ≡ charge 4096 5 (check_request_size check)
check_request-charge_example = check_request-charge check 4096 5 (omega arith)

batch_request-charge_example :
    add_batch_request_cost (counter 0 64) batch ≡ charge 64 0 (batch_request_size batch)
batch_request-charge_example = batch_request-charge batch 64 0 (omega arith)

write_data-charge_example :
    add_write_data_request_cost (counter 0 4096) write ≡ charge 4096 0 (write_data_size write)
write_data-charge_example = write_data-charge write 4096 0 (omega arith)

verification-charge_example :
    (add_approval_verification_request_cost (counter 0 512) binding (codes "a" ∷ []) (codes "e")
      ≡ charge 512 0
          (evidence_binding_size binding + path_size (codes "a" ∷ []) + text_size (codes "e")))
    × (add_delegation_verification_request_cost (counter 0 512) binding (codes "e")
        ≡ charge 512 0 (evidence_binding_size binding + text_size (codes "e")))
verification-charge_example =
    verification-charge binding (codes "a" ∷ []) (codes "e") 512 0 (omega arith)

caller-charge_example :
    (add_caller_cost (counter 0 64) (codes "svc") ((codes "team", codes "x") ∷ [])
      ≡ charge 64 0 (caller_size (codes "svc") ((codes "team", codes "x") ∷ [])))
    × (add_caller_authorization_cost (counter 0 64) (grant ∷ [])
        ≡ charge 64 0 (8 + sum_of grant_size (grant ∷ [])))
caller-charge_example =
    caller-charge (codes "svc") ((codes "team", codes "x") ∷ []) (grant ∷ []) 64 0 (omega arith)

decision-charge_example :
    (add_decision_result_value_cost (counter 0 512) result
      ≡ charge 512 0 (decision_result_size result))
    × (add_explain_response_cost (counter 0 512) result (step ∷ [])
        ≡ charge 512 0 (decision_result_size result + (8 + sum_of explain_step_size (step ∷ []))))
    × (add_batch_response_cost (counter 0 512) (result ∷ [])
        ≡ charge 512 0 (8 + sum_of decision_result_size (result ∷ [])))
decision-charge_example = decision-charge result (step ∷ []) (result ∷ []) 512 0 (omega arith)

page-charge_example :
    (add_revision_page_cost (counter 0 512) (published ∷ []) (codes "n")
      ≡ charge 512 0 (8 + (text_size (codes "n") + sum_of revision_metadata_size (published ∷ []))))
    × (add_activation_history_page_cost (counter 0 512) [] (codes "n")
        ≡ charge 512 0 (8 + (text_size (codes "n") + sum_of activation_size [])))
    × (add_event_page_cost (counter 0 512) [] (codes "n")
        ≡ charge 512 0 (8 + (text_size (codes "n") + sum_of state_event_size [])))
page-charge_example = page-charge (published ∷ []) [] [] (codes "n") 512 0 (omega arith)

publish_status-charge_example :
    (add_publish_request_cost (counter 0 64) (codes "acme") (codes "f") (codes "type user")
      ≡ charge 64 0
          (text_size (codes "acme") + text_size (codes "f") + text_size (codes "type user")))
    × (add_status_response_cost (counter 0 64) true (status ∷ [])
        ≡ charge 64 0 (9 + (8 + sum_of component_status_size (status ∷ []))))
publish_status-charge_example =
    publish_status-charge (codes "acme") (codes "f") (codes "type user") true (status ∷ []) 64 0
      (omega arith)

costs_unordered_example :
    (add_arguments_cost (counter 0 64) ((codes "a", word) ∷ (codes "b", nothing) ∷ [])
      ≡ add_arguments_cost (counter 0 64) ((codes "b", nothing) ∷ (codes "a", word) ∷ []))
    × (add_caller_cost
          (counter 0 64)
          (codes "svc")
          ((codes "x", codes "1") ∷ (codes "y", codes "2") ∷ [])
        ≡ add_caller_cost
            (counter 0 64)
            (codes "svc")
            ((codes "y", codes "2") ∷ (codes "x", codes "1") ∷ []))
costs_unordered_example =
    costs_unordered 64 0 (codes "svc") ((codes "a", word) ∷ (codes "b", nothing) ∷ [])
      ((codes "b", nothing) ∷ (codes "a", word) ∷ [])
      ((codes "x", codes "1") ∷ (codes "y", codes "2") ∷ [])
      ((codes "y", codes "2") ∷ (codes "x", codes "1") ∷ []) (omega arith) ∣ Permᴰ.swap refl refl ∣₁
      ∣ Permᴰ.swap refl refl ∣₁

add_many-charge_example : add_many (counter 90 100) (pos 2) (pos 5) ≡ charge 100 90 10
add_many-charge_example = add_many-charge 100 90 2 5 (omega arith)

-- A product of 2 ^ 64, which wraps around to zero, is refused.
wrapped_product : add_many (counter 90 100) (pos (2 ^ 33)) (pos (2 ^ 31)) ≡ err resource_exhausted
unfolding add_many wrap_int
wrapped_product = refl
