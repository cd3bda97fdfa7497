-- ===== src/Memory/Writes.antt =====
-- store/memory/idempotency.go: `WriteData` as its two critical sections. A write comes with the
-- fingerprint that `FingerprintWriteData` gives it. An update of an index that would read a field of nil
-- panics, which is the outcome `panics`; all others are Go's.
pub mod Commits
use policy_engine.Prelude.{
  ℕ, ◌+◌, Bool, true, false, ◌&&◌, not, List, [], ◌∷◌, Option, none, some, if◌then◌else◌, ◌==◌,
}
use policy_engine.Prelude.Assoc.{lookup, insert, erase}
use policy_engine.Prelude.Text.{Text, text_eq, codes}
use policy_engine.Errors.{
  Result, ok, err, ◌>>=◌, ◌>>◌, conflict, resource_exhausted, internal, invalid_argument,
}
use policy_engine.Model.Data.{RelationshipTuple, TupleKey, Attribute, AttributeKey}
use policy_engine.Model.Requests.{WriteDataRequestInput}
use policy_engine.Model.Records.{StateEvent, data_written}
use policy_engine.Index.Avl.{leaf}
use policy_engine.Index.Tuples.{TupleTree, tuple_set, tuple_delete}
use policy_engine.Index.Tries.{AttributeTree, attribute_set, attribute_delete}
use policy_engine.Memory.Events.{EventRecord, max_uint64, next_event_sequence}
use policy_engine.Memory.Store.{
  Text_Eq, Pair_Eq, DataVersion, DataState, WriteDataResponse, IdempotencyState, CommitReservation,
  CommitReservationKey, Store, Environment, reserve_commit, owns_commit_reservation,
  release_commit_reservation, effective_time_of, with_effective_time, new_event, append_to_log,
}
use policy_engine.Memory.Slots.{require_revision, require_or}

-- A request that has passed `NewWriteDataRequest`, and its fingerprint.
pub record Write : Type 0 where
  pub request : WriteDataRequestInput
  pub fingerprint : Text

abbrev pub new_write_data_response : ℕ → Bool → Result WriteDataResponse
new_write_data_response generation replayed =
    if generation == 0
    then err invalid_argument
    else ok (record { generation = generation; replayed = replayed })

abbrev pub idempotency_record : Option DataState → Text → Option IdempotencyState
idempotency_record none key = none
idempotency_record (some state) key = lookup key state.idempotency

-- The answer to a write whose key is recorded.
abbrev pub replay : Write → IdempotencyState → Result WriteDataResponse
replay w previous =
    if text_eq previous.fingerprint w.fingerprint
    then new_write_data_response previous.response.generation true
    else err conflict

abbrev pub generation_of : Option DataState → ℕ
generation_of none = 0
generation_of (some state) = state.generation

-- The version that a write starts from: the current one, or a new empty one.
abbrev pub base_version : Option DataState → ℕ → DataVersion
base_version none address = record {
  address = address;
  generation = 0;
  tuples = leaf;
  attributes = leaf;
}
base_version (some state) address = state.current

abbrev pub data_of : Write → Store → Option DataState
data_of w s = lookup w.request.namespace s.data_states

-- The checks of the first section behind the idempotency record.
unfoldable pub check_write : Write → Store → Result (Unit {0})
check_write w s = do
  require_revision (lookup (w.request.namespace, w.request.validation_revision_id) s.revisions)
  require_or conflict (generation_of (data_of w s) == w.request.expected_generation)
  require_or resource_exhausted (not (generation_of (data_of w s) == max_uint64))
  next_event_sequence (lookup w.request.namespace s.events) >>= (λ sequence. ok tt)

-- The loops over the mutations. An outer `none` is a panic, and an inner one a refused attribute.
abbrev pub delete_tuples : List TupleKey → TupleTree → Option TupleTree
delete_tuples [] root = some root
delete_tuples (key ∷ keys) root = elim (tuple_delete root key.tuple) [
  | none ↦ none
  | some root ↦ delete_tuples keys root
]

abbrev pub write_tuples : List RelationshipTuple → TupleTree → Option TupleTree
write_tuples [] root = some root
write_tuples (tuple ∷ tuples) root = elim (tuple_set root tuple.tuple tuple) [
  | none ↦ none
  | some root ↦ write_tuples tuples root
]

abbrev pub delete_attributes : List AttributeKey → AttributeTree → Option AttributeTree
delete_attributes [] root = some root
delete_attributes (key ∷ keys) root = elim (attribute_delete root key) [
  | none ↦ none
  | some root ↦ delete_attributes keys root
]

abbrev pub write_attributes : List Attribute → AttributeTree → Option (Option AttributeTree)
write_attributes [] root = some (some root)
write_attributes (attribute ∷ attributes) root = elim (attribute_set root attribute) [
  | none ↦ none
  | some none ↦ some none
  | some (some root) ↦ write_attributes attributes root
]

abbrev pub mutated_tuples : Write → TupleTree → Option TupleTree
mutated_tuples w root = elim (delete_tuples w.request.tuple_deletes root) [
  | none ↦ none
  | some root ↦ write_tuples w.request.tuple_writes root
]

abbrev pub mutated_attributes : Write → AttributeTree → Option (Option AttributeTree)
mutated_attributes w root = elim (delete_attributes w.request.attribute_deletes root) [
  | none ↦ none
  | some root ↦ write_attributes w.request.attribute_writes root
]

-- What the first section hands to the second one.
pub record PendingWrite : Type 0 where
  pub reservation : CommitReservation
  pub base : DataVersion
  pub candidate : DataVersion
  pub response : WriteDataResponse

-- How the first section ends: the call waits for the reservation at an address and starts over, or
-- it is answered, or it goes on to its second section.
pub data BeginWrite : Type 0 where
  waits : ℕ → BeginWrite
  answered : Result WriteDataResponse → BeginWrite
  panics : BeginWrite
  begun : PendingWrite → BeginWrite

abbrev data_key : Write → CommitReservationKey
data_key w = (codes "data", (w.request.namespace, []))

-- A pending write of the same key and fingerprint is waited for.
abbrev pub begin_behind : Write → Option CommitReservation → BeginWrite
begin_behind w none = answered (err conflict)
begin_behind w (some pending) =
    if text_eq pending.operation (codes "data")
      && text_eq pending.idempotency_key w.request.idempotency_key
      && text_eq pending.fingerprint w.fingerprint
    then waits pending.address
    else answered (err conflict)

abbrev pub marked : Write → CommitReservation → CommitReservation
marked w r = record r {
  operation = codes "data";
  idempotency_key = w.request.idempotency_key;
  fingerprint = w.fingerprint;
}

abbrev pub with_reservation : CommitReservation → Store → Store
with_reservation r s = record s { reservations = insert r.key r s.reservations }

unfoldable pub pend :
    CommitReservation
    → DataVersion
    → DataVersion
    → Result WriteDataResponse
    → Store
    → BeginWrite × Store
unfolding release_commit_reservation
pend r base candidate (err e) s = (answered (err e), release_commit_reservation r s)
pend r base candidate (ok response) s =
    (begun (record { reservation = r; base = base; candidate = candidate; response = response }), s)

unfoldable pub begin_mutated :
    CommitReservation
    → DataVersion
    → ℕ
    → Option TupleTree
    → Option (Option AttributeTree)
    → Store
    → BeginWrite × Store
unfolding pend release_commit_reservation
begin_mutated r base generation none attributes s = (panics, s)
begin_mutated r base generation (some tuples) none s = (panics, s)
begin_mutated r base generation (some tuples) (some none) s =
    (answered (err conflict), release_commit_reservation r s)
begin_mutated r base generation (some tuples) (some (some attributes)) s =
    let candidate : DataVersion = record {
      address = s.next_address + 1;
      generation = generation;
      tuples = tuples;
      attributes = attributes;
    } in
    pend r base candidate (new_write_data_response generation false)
      (record s { next_address = s.next_address + 2 })

unfoldable pub begin_current :
    Write → CommitReservation → Result (Unit {0}) → Store → BeginWrite × Store
unfolding begin_mutated release_commit_reservation
begin_current w r (err e) s = (answered (err e), release_commit_reservation r s)
begin_current w r (ok u) s =
    let state = data_of w s in
    let base = base_version state s.next_address in
    begin_mutated r base (generation_of state + 1) (mutated_tuples w base.tuples)
      (mutated_attributes w base.attributes) s

unfoldable pub begin_recorded :
    Write → CommitReservation → Option IdempotencyState → Store → BeginWrite × Store
unfolding begin_current release_commit_reservation check_write
begin_recorded w r (some previous) s =
    (answered (replay w previous), release_commit_reservation r s)
begin_recorded w r none s = begin_current w r (check_write w s) s

unfoldable pub begin_reserved : Write → Option CommitReservation × Store → BeginWrite × Store
unfolding begin_recorded release_commit_reservation check_write
begin_reserved w (none, s) = (begin_behind w (lookup (data_key w) s.reservations), s)
begin_reserved w (some r, s) =
    let held = with_reservation (marked w r) s in
    begin_recorded w (marked w r) (idempotency_record (data_of w held) w.request.idempotency_key)
      held

unfoldable pub begin_write : Write → Store → BeginWrite × Store
unfolding begin_reserved reserve_commit release_commit_reservation check_write
begin_write w s = begin_reserved w (reserve_commit (data_key w) s)
