-- ===== src/Memory/Interleavings/Ready.antt =====
-- Between its two sections, what a call has checked stays true: no other call changes it.
use policy_engine.Prelude.{◌==◌, ℕ, suc, ◌≡◌, ◌≢◌, refl, ◌∙◌, true, false, [], none, some}
use policy_engine.Prelude.Assoc.{lookup}
use policy_engine.Prelude.Text.{Text, codes}
use policy_engine.Errors.{ok}
use policy_engine.Model.Records.{RevisionRecord}
use policy_engine.Contracts.Slots.{ActivateRequest}
use policy_engine.Memory.Events.{max_uint64}
use policy_engine.Memory.Store.{
  Text_Eq, Pair_Eq, CommitReservationKey, CommitReservation, Store, with_effective_time,
}
use policy_engine.Memory.Slots.{Begun, slot_of, activation_expectation_matches, next_generation}
use policy_engine.Memory.Writes.{
  Write, PendingWrite, base_version, mutated_tuples, mutated_attributes, data_of,
  idempotency_record, generation_of,
}
use policy_engine.Memory.Writes.Commits.{same_base}
use policy_engine.Memory.Interleavings.{
  Call, activating, writing, putting, finished, reservation_of,
}

abbrev pub slot_key : Text → Text → CommitReservationKey
slot_key namespace slot = (codes "slot", (namespace, slot))

abbrev pub data_key : Text → CommitReservationKey
data_key namespace = (codes "data", (namespace, []))

abbrev pub revision_key : Text → CommitReservationKey
revision_key namespace = (codes "revision", (namespace, []))

pub record ReadyActivation (q : ActivateRequest) (b : Begun) (s : Store) : Type 0 where
  pub key : b.reservation.key ≡ slot_key q.namespace q.slot
  pub target : RevisionRecord
  pub found : lookup (q.namespace, q.target_revision_id) s.revisions ≡ some target
  pub matches : activation_expectation_matches q.expectation (slot_of q s) ≡ true
  pub generation : next_generation (slot_of q s) ≡ ok b.generation

pub record ReadyWrite (d : Write) (p : PendingWrite) (s : Store) : Type 0 where
  pub key : p.reservation.key ≡ data_key d.request.namespace
  pub target : RevisionRecord
  pub found :
      lookup (d.request.namespace, d.request.validation_revision_id) s.revisions ≡ some target
  pub base : same_base d p (data_of d s) ≡ true
  pub fresh : idempotency_record (data_of d s) d.request.idempotency_key ≡ none
  pub next : p.candidate.generation ≡ suc (generation_of (data_of d s))
  pub room : (generation_of (data_of d s) == max_uint64) ≡ false
  pub from : p.base ≡ base_version (data_of d s) p.base.address
  pub tuples : mutated_tuples d p.base.tuples ≡ some p.candidate.tuples
  pub attributes : mutated_attributes d p.base.attributes ≡ some (some p.candidate.attributes)
  pub response : p.response ≡ record { generation = p.candidate.generation; replayed = false }

pub record ReadyPut (r : RevisionRecord) (c : CommitReservation) (s : Store) : Type 0 where
  pub key : c.key ≡ revision_key r.metadata.namespace
  pub unpublished : lookup (r.metadata.namespace, r.metadata.id) s.revisions ≡ none

abbrev pub Ready : Call → Store → Type 0
Ready (activating q b) s = ReadyActivation q b s
Ready (writing d p) s = ReadyWrite d p s
Ready (putting r c) s = ReadyPut r c s
Ready (finished c) s = Unit

-- What a commit under a key leaves as it was.
pub record Apart (k : CommitReservationKey) (s t : Store) : Type 0 where
  pub slots : (n l : Text) → slot_key n l ≢ k → lookup (n, l) t.slots ≡ lookup (n, l) s.slots
  pub data_states : (n : Text) → data_key n ≢ k → lookup n t.data_states ≡ lookup n s.data_states
  pub revisions :
      (n i : Text) → revision_key n ≢ k → lookup (n, i) t.revisions ≡ lookup (n, i) s.revisions
  pub kept :
      (j : Text × Text) (r : RevisionRecord)
      → lookup j s.revisions ≡ some r
      → lookup j t.revisions ≡ some r

pub Ready-Apart :
    (k : CommitReservationKey) (s t : Store) (x : Call)
    → Apart k s t
    → (reservation_of x).key ≢ k
    → Ready x s
    → Ready x t
Ready-Apart k s t (activating q b) a n r =
    let same = a.slots q.namespace q.slot (λ e. n (r.key ∙ e)) in
    record {
      key = r.key;
      target = r.target;
      found = a.kept (q.namespace, q.target_revision_id) r.target r.found;
      matches = rw same r.matches;
      generation = rw same r.generation;
    }
Ready-Apart k s t (writing d p) a n r =
    let same = a.data_states d.request.namespace (λ e. n (r.key ∙ e)) in
    record {
      key = r.key;
      target = r.target;
      found = a.kept (d.request.namespace, d.request.validation_revision_id) r.target r.found;
      base = rw same r.base;
      fresh = rw same r.fresh;
      next = rw same r.next;
      room = rw same r.room;
      from = rw same r.from;
      tuples = r.tuples;
      attributes = r.attributes;
      response = r.response;
    }
Ready-Apart k s t (putting p c) a n r = record {
  key = r.key;
  unpublished = a.revisions p.metadata.namespace p.metadata.id (λ e. n (r.key ∙ e)) ∙ r.unpublished;
}
Ready-Apart k s t (finished c) a n r = tt

-- A commit changes what is under its key, and no reservation.
pub record Changes (k : CommitReservationKey) (s t : Store) : Type 0 where
  pub apart : Apart k s t
  pub table : t.reservations ≡ s.reservations
  pub address : t.next_address ≡ s.next_address

pub Changes-refl : (k : CommitReservationKey) (s : Store) → Changes k s s
Changes-refl k s = record {
  apart = record {
    slots = λ n. λ l. λ d. refl;
    data_states = λ n. λ d. refl;
    revisions = λ n. λ i. λ d. refl;
    kept = λ j. λ r. λ h. h;
  };
  table = refl;
  address = refl;
}

pub Changes-timed :
    (k : CommitReservationKey) (now : ℕ) (s t : Store)
    → Changes k (with_effective_time now s) t
    → Changes k s t
Changes-timed k now s t c = record {
  apart = record {
    slots = c.apart.slots;
    data_states = c.apart.data_states;
    revisions = c.apart.revisions;
    kept = c.apart.kept;
  };
  table = c.table;
  address = c.address;
}
