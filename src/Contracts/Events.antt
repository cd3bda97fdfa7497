-- ===== src/Contracts/Events.antt =====
-- events.go: state events, and the requests and responses about them. The input of the constructor has
-- the fields of an event.
use policy_engine.Prelude.{
  ℕ, Bool, true, false, ◌&&◌, ◌||◌, not, List, [], ◌∷◌, if◌then◌else◌, length, ltb, leb, ◌==◌,
}
use policy_engine.Prelude.Text.{Text, text_eq, is_empty}
use policy_engine.Errors.{Result, ok, err, ◌>>◌, invalid_argument, resource_exhausted}
use policy_engine.Limits.{
  max_event_page_bytes, max_page_request_items, max_page_response_items, max_event_page_items,
}
use policy_engine.Cost.Responses.{add_state_event_cost, add_event_page_cost}
use policy_engine.Model.Records.{
  StateEvent, StateEventKind, no_event, revision_published, slot_activated, data_written,
}
use policy_engine.Validation.{
  succeeds, require, any, validate_namespace, validate_identifier, validate_optional_identifier,
  valid_revision_id_string,
}
use policy_engine.Contracts.{fresh_budget}

pub record ListEventsRequest : Type 0 where
  pub namespace : Text
  pub after_cursor : Text
  pub limit : ℕ

pub record ListEventsResponse : Type 0 where
  pub request : ListEventsRequest
  pub events : List StateEvent
  pub next_cursor : Text

module _ (format : ℕ → Bool) where
  -- What the kind of an event says of its other fields.
  abbrev pub kind_fits : StateEventKind → StateEvent → Bool
  unfolding validate_identifier valid_revision_id_string
  kind_fits revision_published e =
      valid_revision_id_string e.revision_id
      && is_empty e.slot
      && (e.slot_generation == 0)
      && (e.data_generation == 0)
  kind_fits slot_activated e =
      valid_revision_id_string e.revision_id
      && succeeds (validate_identifier format e.slot)
      && not (e.slot_generation == 0)
      && (e.data_generation == 0)
  kind_fits data_written e =
      is_empty e.revision_id
      && is_empty e.slot
      && (e.slot_generation == 0)
      && not (e.data_generation == 0)
  kind_fits no_event e = false

  unfoldable pub new_state_event : StateEvent → Result StateEvent
  unfolding validate_namespace validate_identifier add_state_event_cost
  new_state_event raw = do
    add_state_event_cost (fresh_budget max_event_page_bytes) raw
    require (not (raw.occurred_at == 0))
    validate_namespace format raw.namespace
    validate_identifier format raw.cursor
    require (kind_fits raw.kind raw)
    ok raw

  unfoldable pub valid_event : StateEvent → Bool
  unfolding validate_namespace validate_identifier add_state_event_cost
  valid_event e =
      succeeds (validate_namespace format e.namespace)
      && succeeds (validate_identifier format e.cursor)
      && not (e.occurred_at == 0)
      && succeeds (add_state_event_cost (fresh_budget max_event_page_bytes) e)
      && kind_fits e.kind e

  unfoldable pub new_list_events_request : Text → Text → ℕ → Result ListEventsRequest
  unfolding validate_namespace validate_optional_identifier
  new_list_events_request namespace after_cursor limit =
      if limit == 0 then err invalid_argument else (do
        validate_namespace format namespace
        validate_optional_identifier format after_cursor
        if ltb max_page_request_items limit
            then err resource_exhausted
            else ok (record { namespace = namespace; after_cursor = after_cursor; limit = limit }))

  abbrev pub valid_list_events_request : ListEventsRequest → Bool
  unfolding validate_namespace validate_optional_identifier
  valid_list_events_request r =
      succeeds (validate_namespace format r.namespace)
      && succeeds (validate_optional_identifier format r.after_cursor)
      && ltb 0 r.limit
      && leb r.limit max_page_request_items

  -- `seen` are the cursors before.
  abbrev pub valid_events_after : ListEventsRequest → List Text → List StateEvent → Bool
  unfolding valid_event
  valid_events_after request seen [] = true
  valid_events_after request seen (e ∷ rest) =
      valid_event e
      && text_eq e.namespace request.namespace
      && not (any (text_eq e.cursor) seen)
      && valid_events_after request (e.cursor ∷ seen) rest

  unfoldable pub valid_event_page : ListEventsRequest → List StateEvent → Bool
  valid_event_page request events = valid_events_after request [] events

  unfoldable pub new_list_events_response :
      ListEventsRequest → List StateEvent → Text → Result ListEventsResponse
  unfolding validate_optional_identifier valid_event_page add_event_page_cost
  new_list_events_response request events next_cursor =
      if not (valid_list_events_request request)
      then err invalid_argument
      else if ltb request.limit (length events)
          || ltb max_event_page_items (length events)
          || ltb max_page_response_items (length events)
      then err resource_exhausted
      else add_event_page_cost (fresh_budget max_event_page_bytes) events next_cursor
        >> validate_optional_identifier format next_cursor
        >> require (valid_event_page request events)
        >> ok (record { request = request; events = events; next_cursor = next_cursor })
