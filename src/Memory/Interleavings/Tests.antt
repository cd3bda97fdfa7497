-- ===== src/Memory/Interleavings/Tests.antt =====
-- A publication, an activation and a write whose steps interleave.
use policy_engine.Prelude.{◌≡◌, refl, true, false, [], none, some, if◌then◌else◌, replicate}
use policy_engine.Validation.Runes.{runes}
use policy_engine.Validation.{
  validate_text, validate_identifier, validate_namespace, valid_revision_id_string,
}
use policy_engine.Contracts.Slots.{new_activation, new_activate_response, valid_activation}
use policy_engine.Contracts.Events.{new_state_event}
use policy_engine.Budget.{add, add_many}
use policy_engine.Cost.Parts.{add_text_cost, add_fixed_field_cost, for_each}
use policy_engine.Cost.Responses.{add_state_event_cost, add_activation_cost}
use policy_engine.Memory.Cursors.{new_cursor, cursor_scope}
use policy_engine.Memory.Store.{pair_eq, new_event}
use policy_engine.Memory.Slots.{build_activation}
use policy_engine.Index.Avl.{leaf, set, get, new_node, rebalance, height}
use policy_engine.Index.Revisions.{revision_set}
use policy_engine.Index.Tuples.{tuple_set, tuple_delete}
use policy_engine.Index.Attributes.{entity_get, entity_set, segment_get, segment_set}
use policy_engine.Index.Tries.{attribute_set, trie_set, segments, children}
use policy_engine.Index.Keys.{compare_tuple, compare_entity, compare_subject, compare_revision_key}
use policy_engine.Prelude.Assoc.{insert, erase}
use policy_engine.Prelude.Bytes.{put_bytes}
use policy_engine.Prelude.Text.{Text, codes, text_eq, compare_text}
use policy_engine.Errors.{Result, ok, err, conflict}
use policy_engine.Model.Records.{RevisionRecord, no_event}
use policy_engine.Contracts.Slots.{ActivateRequest, ActivateResponse, new_unset_slot_expectation}
use policy_engine.Memory.Events.{EventRecord}
use policy_engine.Memory.Store.{
  Text_Eq, Pair_Eq, Store, Environment, new_store, CommitReservation, release_commit_reservation,
}
use policy_engine.Memory.Slots.{
  Begun, begin_activate, commit_activate, slot_of, activation_expectation_matches, next_generation,
}
use policy_engine.Memory.Writes.{Write, PendingWrite, BeginWrite, begin_write}
use policy_engine.Memory.Writes.Commits.{commit_write}
use policy_engine.Memory.Publications.{BeginPut, Commit, begin_put_revision, commit_put_revision}
use policy_engine.Cache.Revisions.{ℕ_Eq}
use policy_engine.Memory.Interleavings.{
  World, world, enters, activating, writing, putting, finished, Reaches, here, then_step,
  put_begins, put_commits, leaves, activate_begins, write_begins, new_world,
}
use policy_engine.Memory.Interleavings.Activations.{Finishes, built_at, commit_activate-completes}
use policy_engine.Memory.Interleavings.Invariant.{IsWorld, Reaches-IsWorld}
use policy_engine.Memory.Interleavings.Idempotency.{begin_write-replays}

abbrev env : Environment
env = record {
  format = λ r. false;
  sealing = record {
    mac = λ t. replicate 32 7;
    encode = λ t. codes "cursor";
    decode = λ t. none;
    key_ok = true;
  };
  valid_record = λ r. true;
}

abbrev revision_id : Text
revision_id = replicate 64 97

abbrev revision : RevisionRecord
revision = record {
  metadata = record { namespace = codes "acme"; id = revision_id; published_at = 5 };
  artifact = codes "artifact";
  provenance = record {
    source_name = [];
    original_source = [];
    original_source_digest = [];
    valid = true;
  };
}

abbrev reservation_in : BeginPut → CommitReservation
reservation_in (BeginPut.begun c) = c
reservation_in _ = record {
  address = 0;
  key = ([], ([], []));
  operation = [];
  idempotency_key = [];
  fingerprint = [];
}

abbrev committed_store : Commit → Store
committed_store none = new_store
committed_store (some (a, s)) = s

abbrev publication : CommitReservation
publication = reservation_in (begin_put_revision env revision new_store).0

abbrev publishing : World
publishing =
    enters (putting revision publication) new_world (begin_put_revision env revision new_store).1

abbrev published : World
published =
    world (committed_store (commit_put_revision env revision publication 10 publishing.store))
      (insert 0 (finished publication) publishing.calls)

abbrev settled : World
settled = world (release_commit_reservation publication published.store) (erase 0 published.calls)

abbrev request : ActivateRequest
request = record {
  namespace = codes "acme";
  slot = codes "main";
  target_revision_id = revision_id;
  expectation = new_unset_slot_expectation;
}

abbrev begun_in : Result Begun → Begun
begun_in (ok b) = b
begun_in (err e) = record { reservation = publication; generation = 0 }

abbrev activation : Begun
activation = begun_in (begin_activate request settled.store).0

abbrev activating_world : World
activating_world =
    enters (activating request activation) settled (begin_activate request settled.store).1

program : Unit {0}
unfolding begin_put_revision commit_put_revision release_commit_reservation begin_activate
    commit_activate begin_write commit_write new_event new_state_event new_cursor cursor_scope
    put_bytes pair_eq Text_Eq Pair_Eq ℕ_Eq text_eq compare_text runes validate_text
    validate_identifier validate_namespace valid_revision_id_string add_state_event_cost
    add_activation_cost add_text_cost add_fixed_field_cost add add_many for_each revision_set set
    new_node rebalance height new_activation new_activate_response valid_activation build_activation
    built_at activation_expectation_matches tuple_set tuple_delete attribute_set trie_set entity_get
    entity_set segment_get segment_set get segments children compare_tuple compare_entity
    compare_subject compare_revision_key
program = tt

publishing_reached : Reaches env new_world publishing
unfolding program
publishing_reached = then_step here (put_begins revision publication refl)

published_reached : Reaches env new_world published
unfolding program
published_reached = then_step publishing_reached (put_commits 0 revision publication 10 refl refl)

settled_reached : Reaches env new_world settled
unfolding program
settled_reached = then_step published_reached (leaves 0 (finished publication) refl)

activating_reached : Reaches env new_world activating_world
unfolding program
activating_reached = then_step settled_reached (activate_begins request activation refl)

Reaches-IsWorld_example : IsWorld activating_world
Reaches-IsWorld_example = Reaches-IsWorld env activating_world activating_reached

abbrev response_in : Result (ActivateResponse × EventRecord) → ActivateResponse × EventRecord
response_in (ok r) = r
response_in (err e) = (
  record {
    activation = record {
      namespace = [];
      slot = [];
      revision_id = [];
      generation = 0;
      activated_at = 0;
    };
  },
  record {
    sequence = 0;
    value = record {
      namespace = [];
      cursor = [];
      kind = no_event;
      revision_id = [];
      slot = [];
      slot_generation = 0;
      data_generation = 0;
      occurred_at = 0;
    };
  },
)

abbrev built : ActivateResponse × EventRecord
built = response_in (built_at env request activation 20 activating_world.store)

built_activation : built_at env request activation 20 activating_world.store ≡ ok (built.0, built.1)
unfolding program
built_activation = refl

-- The activation is the first of its slot, at the time of the clock.
first_activation : built.0.activation.generation ≡ 1
unfolding program
first_activation = refl

commit_activate-completes_example :
    (activation_expectation_matches request.expectation (slot_of request activating_world.store)
      ≡ true)
    × (next_generation (slot_of request activating_world.store) ≡ ok activation.generation)
    × Finishes env request activation.generation 20 activating_world.store built.0 built.1
        (commit_activate env request activation 20 activating_world.store)
unfolding program
commit_activate-completes_example =
    commit_activate-completes env activating_world 1 request activation 20 built.0 built.1
      activating_reached refl built_activation

abbrev write : Write
write = record {
  request = record {
    namespace = codes "acme";
    validation_revision_id = revision_id;
    expected_generation = 0;
    idempotency_key = codes "k1";
    tuple_writes = [];
    tuple_deletes = [];
    attribute_writes = [];
    attribute_deletes = [];
  };
  fingerprint = codes "f1";
}

abbrev other_write : Write
other_write = record write { fingerprint = codes "f2" }

abbrev pending_in : BeginWrite → PendingWrite
pending_in (BeginWrite.begun p) = p
pending_in _ = record {
  reservation = publication;
  base = record { address = 0; generation = 0; tuples = leaf; attributes = leaf };
  candidate = record { address = 0; generation = 0; tuples = leaf; attributes = leaf };
  response = record { generation = 0; replayed = false };
}

abbrev pending : PendingWrite
pending = pending_in (begin_write write activating_world.store).0

abbrev writing_world : World
writing_world =
    enters (writing write pending) activating_world (begin_write write activating_world.store).1

abbrev written_world : World
written_world =
    world (commit_write env write pending 30 writing_world.store).1
      (insert pending.reservation.address (finished pending.reservation) writing_world.calls)

abbrev over_world : World
over_world =
    world (release_commit_reservation pending.reservation written_world.store)
      (erase pending.reservation.address written_world.calls)

writing_reached : Reaches env new_world writing_world
unfolding program
writing_reached = then_step activating_reached (write_begins write pending refl)

written_later : Reaches env written_world over_world
unfolding program
written_later =
    then_step here (leaves pending.reservation.address (finished pending.reservation) refl)

begin_write-replays_example :
    ((begin_write other_write over_world.store).0
      ≡ BeginWrite.answered (
          if text_eq write.fingerprint other_write.fingerprint
          then ok (record { generation = 1; replayed = true })
          else err conflict))
    × ((begin_write other_write over_world.store).1.data_states ≡ over_world.store.data_states)
    × ((begin_write other_write over_world.store).1.events ≡ over_world.store.events)
unfolding program
begin_write-replays_example =
    begin_write-replays env writing_world over_world pending.reservation.address write other_write
      pending 30 (record { generation = 1; replayed = false }) writing_reached refl refl
      written_later refl refl refl
