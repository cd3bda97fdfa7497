-- ===== src/Memory/Interleavings/BeginWrites.antt =====
-- The first sections of `WriteData` and of `PutRevision`.
pub mod Cases
use policy_engine.Prelude.{
  ◌&&◌, ◌==◌, ℕ, ◌+◌, ◌≡◌, refl, arith, Bool, true, false, Option, none, some, if◌then◌else◌,
}
use policy_engine.Prelude.Assoc.{lookup, Distinct, Distinct-insert, lookup-insert_again}
use policy_engine.Prelude.Text.{codes, text_eq}
use policy_engine.Errors.{Result, ok, err, conflict}
use policy_engine.Model.Records.{RevisionRecord}
use policy_engine.Memory.Events.{max_uint64}
use policy_engine.Memory.Store.{
  Text_Eq, Pair_Eq, CommitReservation, Store, DataState, DataVersion, WriteDataResponse,
  IdempotencyState, reserve_commit, reserve_free,
}
use policy_engine.Memory.Writes.{
  Write, PendingWrite, BeginWrite, waits, answered, panics, begun, begin_write, begin_behind,
  begin_reserved, begin_recorded, begin_current, begin_mutated, pend, check_write, marked,
  with_reservation, base_version, mutated_tuples, mutated_attributes, new_write_data_response,
  data_of, idempotency_record,
}
use policy_engine.Memory.Writes.Commits.{same_base}
use policy_engine.Index.Tuples.{TupleTree}
use policy_engine.Index.Tries.{AttributeTree}
use policy_engine.Memory.Interleavings.{writing}
use policy_engine.Memory.Interleavings.Ready.{data_key}
use policy_engine.Memory.Writes.{generation_of}
use policy_engine.Memory.Interleavings.Begins.{
  Answers, Enters, Answers-refl, Reserved, Reserved-Answers, Reserved-Enters, new_reservation,
  with_new_reservation, new_reservation-Reserved,
}

pub marked-Reserved :
    (d : Write) (r : CommitReservation) (s t : Store)
    → Reserved r s t
    → Reserved (marked d r) s (with_reservation (marked d r) t)
marked-Reserved d r s t h = record {
  free = h.free;
  fresh = h.fresh;
  distinct = Distinct-insert r.key (marked d r) t.reservations h.distinct;
  same = λ k. lookup-insert_again k r.key (marked d r) r t.reservations s.reservations (h.same k);
  grown = h.grown;
  quiet = record {
    effective_time = h.quiet.effective_time;
    slots = h.quiet.slots;
    data_states = h.quiet.data_states;
    revisions = h.quiet.revisions;
    revision_order = h.quiet.revision_order;
    events = h.quiet.events;
  };
}

pub check_write-ok :
    (d : Write) (s : Store) (o : Option RevisionRecord)
    → lookup (d.request.namespace, d.request.validation_revision_id) s.revisions ≡ o
    → check_write d s ≡ ok tt
    → ((r : RevisionRecord) × (o ≡ some r))
      × (generation_of (data_of d s) ≡ d.request.expected_generation)
      × ((generation_of (data_of d s) == max_uint64) ≡ false)
unfolding check_write
check_write-ok d s none e h = ground arith
check_write-ok d s (some r) e h = ((r, refl), ground arith, ground arith)

same_base-base_version :
    (d : Write) (p : PendingWrite) (o : Option DataState) (a : ℕ)
    → generation_of o ≡ d.request.expected_generation
    → p.base ≡ base_version o a
    → same_base d p o ≡ true
same_base-base_version d p none a h e = rw e (ground arith)
same_base-base_version d p (some state) a h e = rw e (ground arith)

base_version-address :
    (o : Option DataState) (a : ℕ) → base_version o a ≡ base_version o (base_version o a).address
base_version-address none a = refl
base_version-address (some state) a = refl

-- The outcome of the first section of `WriteData`.
abbrev pub WriteBegins : Write → Store → BeginWrite × Store → Type 0
WriteBegins d s (waits i, t) = Answers s t
WriteBegins d s (answered r, t) = Answers s t
WriteBegins d s (panics, t) = Unit
WriteBegins d s (begun p, t) = Enters (writing d p) s t

abbrev pub bumped : Store → Store
bumped s = record s { next_address = s.next_address + 2 }

bumped-Reserved : (r : CommitReservation) (s t : Store) → Reserved r s t → Reserved r s (bumped t)
bumped-Reserved r s t h = record {
  free = h.free;
  fresh = h.fresh;
  distinct = h.distinct;
  same = h.same;
  grown = omega (arith, h.grown);
  quiet = record {
    effective_time = h.quiet.effective_time;
    slots = h.quiet.slots;
    data_states = h.quiet.data_states;
    revisions = h.quiet.revisions;
    revision_order = h.quiet.revision_order;
    events = h.quiet.events;
  };
}

-- What the first section has found out before it applies the mutations.
pub record Checked (d : Write) (r : CommitReservation) (t : Store) : Type 0 where
  pub key : r.key ≡ data_key d.request.namespace
  pub target : RevisionRecord
  pub found :
      lookup (d.request.namespace, d.request.validation_revision_id) t.revisions ≡ some target
  pub expected : generation_of (data_of d t) ≡ d.request.expected_generation
  pub room : (generation_of (data_of d t) == max_uint64) ≡ false
  pub fresh : idempotency_record (data_of d t) d.request.idempotency_key ≡ none

abbrev candidate_of : Write → Store → TupleTree → AttributeTree → DataVersion
candidate_of d t tuples attributes = record {
  address = t.next_address + 1;
  generation = generation_of (data_of d t) + 1;
  tuples = tuples;
  attributes = attributes;
}

response_ok :
    (n : ℕ) (a : WriteDataResponse)
    → new_write_data_response (n + 1) false ≡ ok a
    → a ≡ record { generation = n + 1; replayed = false }
response_ok n a h = ground arith

pub pend-WriteBegins :
    (d : Write) (s t : Store) (r : CommitReservation) (tuples : TupleTree)
    (attributes : AttributeTree) (g : Result WriteDataResponse)
    → Distinct s.reservations
    → Reserved r s t
    → Checked d r t
    → mutated_tuples d (base_version (data_of d t) t.next_address).tuples ≡ some tuples
    → mutated_attributes d (base_version (data_of d t) t.next_address).attributes
      ≡ some (some attributes)
    → new_write_data_response (generation_of (data_of d t) + 1) false ≡ g
    → WriteBegins d s (
        pend r
          (base_version (data_of d t) t.next_address)
          (candidate_of d t tuples attributes)
          g
          (bumped t))
unfolding pend
pend-WriteBegins d s t r tuples attributes (err e) dist h c x y z =
    Reserved-Answers r s (bumped t) dist (bumped-Reserved r s t h)
pend-WriteBegins d s t r tuples attributes (ok response) dist h c x y z =
    let base = base_version (data_of d t) t.next_address in
    let p : PendingWrite = record {
      reservation = r;
      base = base;
      candidate = candidate_of d t tuples attributes;
      response = response;
    } in
    Reserved-Enters (writing d p) s (bumped t) (bumped-Reserved r s t h) (record {
      key = c.key;
      target = c.target;
      found = c.found;
      base = same_base-base_version d p (data_of d t) t.next_address c.expected refl;
      fresh = c.fresh;
      next = omega arith;
      room = c.room;
      from = base_version-address (data_of d t) t.next_address;
      tuples = x;
      attributes = y;
      response = response_ok (generation_of (data_of d t)) response z;
    })
