-- ===== src/Memory/Interleavings/Begins.antt =====
-- What the first sections do: a call enters with a reservation of its own and what it has checked, or it
-- is answered and leaves the store as it was.
pub mod Activations
use policy_engine.Prelude.{
  ◌==◌, ℕ, ◌+◌, ◌≤◌, ◌<◌, ◌≡◌, refl, ◌∙◌, arith, true, [], Option, none, some,
}
use policy_engine.Prelude.Assoc.{
  lookup, insert, Distinct, Distinct-insert, Distinct-erase, lookup-insert_self, lookup-erase_put,
}
use policy_engine.Errors.{Result, ok, err}
use policy_engine.Model.Records.{RevisionRecord}
use policy_engine.Contracts.Slots.{ActivateRequest}
use policy_engine.Memory.Store.{
  Text_Eq, Pair_Eq, CommitReservationKey, CommitReservation, Store, release_commit_reservation,
  reserve_commit, reserve_free, owns_commit_reservation,
}
use policy_engine.Memory.Slots.{
  Begun, slot_of, activation_expectation_matches, next_generation, check_begin, begin_activate,
  activate_reserved, begun_or_released,
}
use policy_engine.Memory.Interleavings.{Call, activating, reservation_of}
use policy_engine.Memory.Interleavings.Ready.{Ready, slot_key, Apart}

-- The same state but for reservations and addresses.
pub record Quiet (s t : Store) : Type 0 where
  pub effective_time : t.effective_time ≡ s.effective_time
  pub slots : t.slots ≡ s.slots
  pub data_states : t.data_states ≡ s.data_states
  pub revisions : t.revisions ≡ s.revisions
  pub revision_order : t.revision_order ≡ s.revision_order
  pub events : t.events ≡ s.events

pub Quiet-Apart : (k : CommitReservationKey) (s t : Store) → Quiet s t → Apart k s t
Quiet-Apart k s t q = record {
  slots = λ n. λ l. λ d. rw q.slots refl;
  data_states = λ n. λ d. rw q.data_states refl;
  revisions = λ n. λ i. λ d. rw q.revisions refl;
  kept = λ j. λ r. λ h. rw q.revisions h;
}

pub record Answers (s t : Store) : Type 0 where
  pub distinct : Distinct t.reservations
  pub same : (k : CommitReservationKey) → lookup k t.reservations ≡ lookup k s.reservations
  pub grown : s.next_address ≤ t.next_address
  pub quiet : Quiet s t

pub record Enters (c : Call) (s t : Store) : Type 0 where
  pub free : lookup (reservation_of c).key s.reservations ≡ none
  pub fresh : (reservation_of c).address ≡ s.next_address
  pub distinct : Distinct t.reservations
  pub same :
      (k : CommitReservationKey)
      → lookup k t.reservations
        ≡ lookup k (insert (reservation_of c).key (reservation_of c) s.reservations)
  pub grown : s.next_address < t.next_address
  pub quiet : Quiet s t
  pub ready : Ready c t

pub Quiet-refl : (s : Store) → Quiet s s
Quiet-refl s = record {
  effective_time = refl;
  slots = refl;
  data_states = refl;
  revisions = refl;
  revision_order = refl;
  events = refl;
}

pub Answers-refl : (s : Store) → Distinct s.reservations → Answers s s
Answers-refl s d = record {
  distinct = d;
  same = λ k. refl;
  grown = omega arith;
  quiet = Quiet-refl s;
}

-- A reservation that was taken is released again; in between, its entry may have been marked.
pub Answers-release :
    (s t : Store) (r : CommitReservation)
    → Distinct s.reservations
    → lookup r.key s.reservations ≡ none
    → Distinct t.reservations
    → ((k : CommitReservationKey)
        → lookup k t.reservations ≡ lookup k (insert r.key r s.reservations))
    → s.next_address ≤ t.next_address
    → Quiet s t
    → Answers s (release_commit_reservation r t)
unfolding release_commit_reservation owns_commit_reservation
Answers-release s t r d free e same grown q =
    let self : lookup r.key t.reservations ≡ some r =
      same r.key ∙ lookup-insert_self r.key r s.reservations in
    let mine : (r.address == r.address) ≡ true = ground arith in
    rw (self, mine)
      (record {
        distinct = Distinct-erase r.key t.reservations e;
        same = λ k. lookup-erase_put k r.key r s.reservations t.reservations e free (same k);
        grown = grown;
        quiet = record {
          effective_time = q.effective_time;
          slots = q.slots;
          data_states = q.data_states;
          revisions = q.revisions;
          revision_order = q.revision_order;
          events = q.events;
        };
      })

pub check_begin-ok :
    (q : ActivateRequest) (s : Store) (o : Option RevisionRecord) (g : ℕ)
    → lookup (q.namespace, q.target_revision_id) s.revisions ≡ o
    → check_begin q s ≡ ok g
    → ((r : RevisionRecord) × (o ≡ some r))
      × (activation_expectation_matches q.expectation (slot_of q s) ≡ true)
      × (next_generation (slot_of q s) ≡ ok g)
unfolding check_begin
check_begin-ok q s none g e h = ground arith
check_begin-ok q s (some r) g e h = ((r, refl), ground arith, ground arith)

-- A reservation was taken at a free key.
pub record Reserved (r : CommitReservation) (s t : Store) : Type 0 where
  pub free : lookup r.key s.reservations ≡ none
  pub fresh : r.address ≡ s.next_address
  pub distinct : Distinct t.reservations
  pub same :
      (k : CommitReservationKey)
      → lookup k t.reservations ≡ lookup k (insert r.key r s.reservations)
  pub grown : s.next_address < t.next_address
  pub quiet : Quiet s t

pub Reserved-Answers :
    (r : CommitReservation) (s t : Store)
    → Distinct s.reservations
    → Reserved r s t
    → Answers s (release_commit_reservation r t)
Reserved-Answers r s t d h =
    Answers-release s t r d h.free h.distinct h.same (omega (arith, h.grown)) h.quiet

pub Reserved-Enters :
    (c : Call) (s t : Store) → Reserved (reservation_of c) s t → Ready c t → Enters c s t
Reserved-Enters c s t h r = record {
  free = h.free;
  fresh = h.fresh;
  distinct = h.distinct;
  same = h.same;
  grown = h.grown;
  quiet = h.quiet;
  ready = r;
}

-- What `reserve_commit` makes of a free key.
abbrev pub new_reservation : CommitReservationKey → Store → CommitReservation
new_reservation key s = record {
  address = s.next_address;
  key = key;
  operation = [];
  idempotency_key = [];
  fingerprint = [];
}

abbrev pub with_new_reservation : CommitReservationKey → Store → Store
with_new_reservation key s = record s {
  reservations = insert key (new_reservation key s) s.reservations;
  next_address = s.next_address + 1;
}

pub new_reservation-Reserved :
    (key : CommitReservationKey) (s : Store)
    → Distinct s.reservations
    → lookup key s.reservations ≡ none
    → Reserved (new_reservation key s) s (with_new_reservation key s)
new_reservation-Reserved key s d free = record {
  free = free;
  fresh = refl;
  distinct = Distinct-insert key (new_reservation key s) s.reservations d;
  same = λ k. refl;
  grown = omega arith;
  quiet = record {
    effective_time = refl;
    slots = refl;
    data_states = refl;
    revisions = refl;
    revision_order = refl;
    events = refl;
  };
}
