-- ===== src/Memory/Slots.antt =====
-- store/memory/slots.go: `Activate` as its two critical sections, and the reads. Between the sections the
-- mutex is free; a call that is cancelled there only releases its reservation. The request has
-- passed `NewActivateRequest`.
use policy_engine.Prelude.{
  ℕ, ◌+◌, ◌-◌, Bool, true, false, ◌&&◌, not, List, [], ◌∷◌, ◌++◌, Option, none, some, if◌then◌else◌,
  length, drop, ◌==◌,
}
use policy_engine.Prelude.Assoc.{lookup, insert}
use policy_engine.Prelude.Text.{Text, text_eq, codes}
use policy_engine.Errors.{
  Result, ErrorCategory, ok, err, ◌>>=◌, ◌>>◌, conflict, not_found, resource_exhausted, internal,
}
use policy_engine.Contracts.Slots.{
  SlotExpectation, is_unset, active, ActivateRequest, ActivateResponse, ResolveRequest,
  ResolveResponse, new_activation, new_activate_response, new_resolve_response,
}
use policy_engine.Model.Records.{Activation, StateEvent, RevisionRecord, slot_activated}
use policy_engine.Memory.Events.{EventRecord, max_uint64, next_event_sequence}
use policy_engine.Memory.Store.{
  Text_Eq, Pair_Eq, SlotState, CommitReservation, Store, Environment, reserve_commit,
  owns_commit_reservation, release_commit_reservation, effective_time_of, with_effective_time,
  new_event, append_to_log,
}

abbrev pub activation_history_retention : ℕ
activation_history_retention = 3

abbrev expects_current : SlotExpectation → Option SlotState → Bool
expects_current e none = false
expects_current e (some state) =
    let a = active e in
    a.2 && text_eq state.current.revision_id a.0 && (state.current.generation == a.1)

abbrev is_none : Option SlotState → Bool
is_none none = true
is_none (some state) = false

unfoldable pub activation_expectation_matches : SlotExpectation → Option SlotState → Bool
activation_expectation_matches e state =
    if is_unset e then is_none state else expects_current e state

abbrev pub next_generation : Option SlotState → Result ℕ
next_generation none = ok 1
next_generation (some state) =
    if state.current.generation == max_uint64
    then err resource_exhausted
    else ok (state.current.generation + 1)

abbrev pub require_revision : Option RevisionRecord → Result (Unit {0})
require_revision none = err not_found
require_revision (some r) = ok tt

abbrev pub slot_of : ActivateRequest → Store → Option SlotState
slot_of request s = lookup (request.namespace, request.slot) s.slots

abbrev pub require_or : ErrorCategory → Bool → Result (Unit {0})
require_or e b = if b then ok tt else err e

-- The checks that both sections make first; they give the generation to activate.
abbrev pub check_slot : ActivateRequest → Store → Result ℕ
unfolding activation_expectation_matches
check_slot request s = do
  require_revision (lookup (request.namespace, request.target_revision_id) s.revisions)
  require_or conflict (activation_expectation_matches request.expectation (slot_of request s))
  next_generation (slot_of request s)

abbrev check_sequence : Text → ℕ → Store → Result ℕ
check_sequence namespace generation s =
    next_event_sequence (lookup namespace s.events) >>= (λ sequence. ok generation)

unfoldable pub check_begin : ActivateRequest → Store → Result ℕ
unfolding check_slot
check_begin request s = do
  generation ← check_slot request s
  check_sequence request.namespace generation s

unfoldable pub check_commit : ActivateRequest → ℕ → Store → Result ℕ
unfolding check_slot
check_commit request begun s = do
  generation ← check_slot request s
  require_or conflict (generation == begun)
  check_sequence request.namespace generation s

-- What the first section hands to the second one.
pub record Begun : Type 0 where
  pub reservation : CommitReservation
  pub generation : ℕ

unfoldable pub begun_or_released : CommitReservation → Result ℕ → Store → Result Begun × Store
unfolding release_commit_reservation
begun_or_released r (err e) s = (err e, release_commit_reservation r s)
begun_or_released r (ok generation) s =
    (ok (record { reservation = r; generation = generation }), s)

unfoldable pub activate_reserved :
    ActivateRequest → Option CommitReservation × Store → Result Begun × Store
unfolding begun_or_released check_begin release_commit_reservation
activate_reserved request (none, s) = (err conflict, s)
activate_reserved request (some r, s) = begun_or_released r (check_begin request s) s

unfoldable pub begin_activate : ActivateRequest → Store → Result Begun × Store
unfolding activate_reserved reserve_commit check_begin release_commit_reservation
begin_activate request s =
    activate_reserved request (reserve_commit (codes "slot", (request.namespace, request.slot)) s)

-- The last three entries.
abbrev pub retained : List Activation → List Activation
retained history = drop (length history - activation_history_retention) history

abbrev history_of : Option SlotState → List Activation
history_of none = []
history_of (some state) = state.history

abbrev pub activated : Option SlotState → Activation → SlotState
activated state a = record { current = a; history = retained (history_of state ++ (a ∷ [])) }

-- The input of the event of an activation.
abbrev pub activation_event : ActivateRequest → ℕ → StateEvent
activation_event request generation = record {
  namespace = request.namespace;
  cursor = [];
  kind = slot_activated;
  revision_id = request.target_revision_id;
  slot = request.slot;
  slot_generation = generation;
  data_generation = 0;
  occurred_at = 0;
}

module _ (env : Environment) where
  -- What is built before anything is stored.
  unfoldable pub build_activation :
      ActivateRequest → ℕ → ℕ → Store → Result (ActivateResponse × EventRecord)
  unfolding new_activation new_activate_response new_event
  build_activation request generation now s = do
    activation ←
        new_activation env.format request.namespace request.slot request.target_revision_id
          generation now
    response ← new_activate_response env.format activation
    event ← new_event env (activation_event request generation) now s
    ok (response, event)

  abbrev pub store_activation :
      ActivateRequest
      → ℕ
      → Result (ActivateResponse × EventRecord)
      → Store
      → Result ActivateResponse × Store
  store_activation request now (err e) s = (err e, s)
  store_activation request now (ok (response, event)) s = (
    ok response,
    append_to_log event now (record s {
      slots =
          insert (request.namespace, request.slot)
            (activated (slot_of request s) response.activation) s.slots;
    }),
  )

  abbrev pub commit_checked :
      ActivateRequest → ℕ → Result ℕ → Store → Result ActivateResponse × Store
  unfolding build_activation
  commit_checked request candidate (err e) s = (err e, s)
  commit_checked request candidate (ok generation) s =
      let now = effective_time_of candidate s in
      let timed = with_effective_time now s in
      store_activation request now (build_activation request generation now timed) timed

  -- The second section, at the time that the clock gave.
  unfoldable pub commit_activate :
      ActivateRequest → Begun → ℕ → Store → Result ActivateResponse × Store
  unfolding owns_commit_reservation check_commit build_activation
  commit_activate request begun candidate s =
      if not (owns_commit_reservation begun.reservation s)
      then (err internal, s)
      else commit_checked request candidate (check_commit request begun.generation s) s

  abbrev resolve_held : Option SlotState → Result ResolveResponse
  unfolding new_resolve_response
  resolve_held none = err not_found
  resolve_held (some state) = new_resolve_response env.format state.current

  unfoldable pub resolve : ResolveRequest → Store → Result ResolveResponse
  unfolding new_resolve_response
  resolve request s = resolve_held (lookup (request.namespace, request.slot) s.slots)
