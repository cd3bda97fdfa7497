-- ===== src/Contracts/Slots.antt =====
-- policy.go: slot expectations, activations, and the requests and responses about slots.
use policy_engine.Prelude.{
  ℕ, Bool, true, false, ◌&&◌, ◌||◌, not, List, [], ◌∷◌, Option, none, some, if◌then◌else◌, length,
  ltb, leb, ◌==◌,
}
use policy_engine.Prelude.Text.{Text, text_eq, is_empty}
use policy_engine.Errors.{Result, ok, err, ◌>>◌, invalid_argument, resource_exhausted}
use policy_engine.Limits.{
  max_aggregate_output_bytes, max_page_request_items, max_page_response_items,
}
use policy_engine.Cost.Responses.{add_activation_cost, add_activation_history_page_cost}
use policy_engine.Model.Records.{Activation}
use policy_engine.Validation.{
  succeeds, require, validate_namespace, validate_identifier, validate_optional_identifier,
  valid_revision_id_string,
}
use policy_engine.Contracts.{fresh_budget}

pub data ExpectationKind : Type 0 where
  no_expectation expect_unset expect_active : ExpectationKind

pub record SlotExpectation : Type 0 where
  pub kind : ExpectationKind
  pub revision_id : Text
  pub generation : ℕ

abbrev pub new_unset_slot_expectation : SlotExpectation
new_unset_slot_expectation = record { kind = expect_unset; revision_id = []; generation = 0 }

abbrev kind_is_unset : ExpectationKind → Bool
kind_is_unset expect_unset = true
kind_is_unset _ = false

abbrev kind_is_active : ExpectationKind → Bool
kind_is_active expect_active = true
kind_is_active _ = false

abbrev pub is_unset : SlotExpectation → Bool
is_unset e = kind_is_unset e.kind && is_empty e.revision_id && (e.generation == 0)

abbrev pub active : SlotExpectation → Text × ℕ × Bool
active e = (
  e.revision_id,
  e.generation,
  kind_is_active e.kind && not (is_empty e.revision_id) && ltb 0 e.generation,
)

unfoldable pub new_active_slot_expectation : Text → ℕ → Result SlotExpectation
unfolding valid_revision_id_string
new_active_slot_expectation revision_id generation =
    if not (valid_revision_id_string revision_id) || (generation == 0)
    then err invalid_argument
    else ok (record { kind = expect_active; revision_id = revision_id; generation = generation })

unfoldable pub valid_expectation : SlotExpectation → Bool
unfolding valid_revision_id_string
valid_expectation e =
    if is_unset e then true else (active e).2 && valid_revision_id_string (active e).0

pub record ActivateRequest : Type 0 where
  pub namespace : Text
  pub slot : Text
  pub target_revision_id : Text
  pub expectation : SlotExpectation

pub record ActivateResponse : Type 0 where
  pub activation : Activation

pub record ResolveRequest : Type 0 where
  pub namespace : Text
  pub slot : Text

pub record ResolveResponse : Type 0 where
  pub activation : Activation

pub record ListActivationHistoryRequest : Type 0 where
  pub namespace : Text
  pub slot : Text
  pub cursor : Text
  pub limit : ℕ

pub record ListActivationHistoryResponse : Type 0 where
  pub request : ListActivationHistoryRequest
  pub activations : List Activation
  pub next_cursor : Text

module _ (format : ℕ → Bool) where
  unfoldable pub new_activate_request :
      Text → Text → Text → SlotExpectation → Result ActivateRequest
  unfolding validate_namespace validate_identifier valid_revision_id_string valid_expectation
  new_activate_request namespace slot target_revision_id expectation = do
    validate_namespace format namespace
    validate_identifier format slot
    require (valid_revision_id_string target_revision_id && valid_expectation expectation)
    ok (record {
      namespace = namespace;
      slot = slot;
      target_revision_id = target_revision_id;
      expectation = expectation;
    })

  unfoldable pub new_activation : Text → Text → Text → ℕ → ℕ → Result Activation
  unfolding validate_namespace validate_identifier valid_revision_id_string add_activation_cost
  new_activation namespace slot revision_id generation activated_at =
      let raw : Activation = record {
        namespace = namespace;
        slot = slot;
        revision_id = revision_id;
        generation = generation;
        activated_at = activated_at;
      } in
      add_activation_cost (fresh_budget max_aggregate_output_bytes) raw
      >> validate_namespace format namespace
      >> validate_identifier format slot
      >> require
          (valid_revision_id_string revision_id && not (generation == 0) && not (activated_at == 0))
      >> ok raw

  unfoldable pub valid_activation : Activation → Bool
  unfolding validate_namespace validate_identifier valid_revision_id_string add_activation_cost
  valid_activation a =
      succeeds (validate_namespace format a.namespace)
      && succeeds (validate_identifier format a.slot)
      && valid_revision_id_string a.revision_id
      && not (a.generation == 0)
      && not (a.activated_at == 0)
      && succeeds (add_activation_cost (fresh_budget max_aggregate_output_bytes) a)

  unfoldable pub new_activate_response : Activation → Result ActivateResponse
  unfolding valid_activation
  new_activate_response a =
      if valid_activation a then ok (record { activation = a }) else err invalid_argument

  unfoldable pub new_resolve_request : Text → Text → Result ResolveRequest
  unfolding validate_namespace validate_identifier
  new_resolve_request namespace slot = do
    validate_namespace format namespace
    validate_identifier format slot
    ok (record { namespace = namespace; slot = slot })

  unfoldable pub new_resolve_response : Activation → Result ResolveResponse
  unfolding valid_activation
  new_resolve_response a =
      if valid_activation a then ok (record { activation = a }) else err invalid_argument

  -- A limit that is not positive is 0.
  unfoldable pub new_list_activation_history_request :
      Text → Text → Text → ℕ → Result ListActivationHistoryRequest
  unfolding validate_namespace validate_identifier validate_optional_identifier
  new_list_activation_history_request namespace slot cursor limit =
      if limit == 0 then err invalid_argument else (do
        validate_namespace format namespace
        validate_identifier format slot
        validate_optional_identifier format cursor
        if ltb max_page_request_items limit
            then err resource_exhausted
            else ok (record { namespace = namespace; slot = slot; cursor = cursor; limit = limit }))

  abbrev pub valid_list_activation_history_request : ListActivationHistoryRequest → Bool
  unfolding validate_namespace validate_identifier validate_optional_identifier
  valid_list_activation_history_request r =
      succeeds (validate_namespace format r.namespace)
      && succeeds (validate_identifier format r.slot)
      && succeeds (validate_optional_identifier format r.cursor)
      && ltb 0 r.limit
      && leb r.limit max_page_request_items

  abbrev pub generation_follows : Option ℕ → ℕ → Bool
  generation_follows none generation = true
  generation_follows (some previous) generation = ltb previous generation

  abbrev pub valid_activations_after :
      ListActivationHistoryRequest → Option ℕ → List Activation → Bool
  unfolding valid_activation
  valid_activations_after request previous [] = true
  valid_activations_after request previous (a ∷ rest) =
      valid_activation a
      && text_eq a.namespace request.namespace
      && text_eq a.slot request.slot
      && generation_follows previous a.generation
      && valid_activations_after request (some a.generation) rest

  unfoldable pub valid_activation_history_page :
      ListActivationHistoryRequest → List Activation → Bool
  valid_activation_history_page request activations =
      valid_activations_after request none activations

  unfoldable pub new_list_activation_history_response :
      ListActivationHistoryRequest → List Activation → Text → Result ListActivationHistoryResponse
  unfolding validate_optional_identifier valid_activation_history_page
      add_activation_history_page_cost
  new_list_activation_history_response request activations next_cursor =
      if not (valid_list_activation_history_request request)
      then err invalid_argument
      else if ltb request.limit (length activations)
          || ltb max_page_response_items (length activations)
      then err resource_exhausted
      else add_activation_history_page_cost (fresh_budget max_aggregate_output_bytes) activations
          next_cursor
        >> validate_optional_identifier format next_cursor
        >> require (valid_activation_history_page request activations)
        >> ok (record { request = request; activations = activations; next_cursor = next_cursor })
