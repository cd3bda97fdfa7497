-- ===== src/Memory/Store.antt =====
-- store/memory/store.go and events.go: the state of the in-memory store, reservations of commits, the
-- effective clock and new events. Every function here runs under the store's mutex. The nested maps
-- of the source are one map by the pair of their keys. A pointer that the source compares is an
-- address, taken from a counter; a reservation's channel `done` is closed once its address is out of the
-- table. The pauses and failures that the package's tests arm are left out.
use policy_engine.Prelude.{
  ℕ, ◌+◌, max, Bool, true, false, ◌&&◌, List, [], Option, none, some, if◌then◌else◌, ◌==◌, ◌≡◌, ◌↔◌,
  arith,
}
use policy_engine.Prelude.Eq.{Eq}
use policy_engine.Prelude.Assoc.{lookup, insert, erase}
use policy_engine.Prelude.Text.{Text, text_eq, text_eq_iff, codes}
use policy_engine.Errors.{Result, ok, ◌>>=◌}
use policy_engine.Model.Records.{RevisionRecord, Activation, StateEvent}
use policy_engine.Contracts.Events.{new_state_event}
use policy_engine.Index.Revisions.{RevisionTree}
use policy_engine.Index.Tuples.{TupleTree}
use policy_engine.Index.Tries.{AttributeTree}
use policy_engine.Memory.Events.{EventRecord, EventState, next_event_sequence, append_event}
use policy_engine.Memory.Cursors.{Sealing, new_cursor}

instance unfoldable pub Text_Eq : Eq Text
Text_Eq = record { beq = text_eq; beq_iff = text_eq_iff }

unfoldable pub pair_eq : {A B : Type 0} ⦃a : Eq A⦄ ⦃b : Eq B⦄ → A × B → A × B → Bool
pair_eq ⦃a⦄ ⦃b⦄ x y = a.beq x.0 y.0 && b.beq x.1 y.1

pub pair_eq_iff :
    {A B : Type 0} ⦃a : Eq A⦄ ⦃b : Eq B⦄ (x y : A × B) → (pair_eq x y ≡ true) ↔ (x ≡ y)
unfolding pair_eq
pair_eq_iff ⦃a⦄ ⦃b⦄ x y = ground (arith, a.beq_iff x.0 y.0, b.beq_iff x.1 y.1)

instance unfoldable pub Pair_Eq : {A B : Type 0} ⦃a : Eq A⦄ ⦃b : Eq B⦄ → Eq (A × B)
Pair_Eq = record { beq = pair_eq; beq_iff = pair_eq_iff }

pub record SlotState : Type 0 where
  pub current : Activation
  pub history : List Activation

-- `dataVersion`, with its address.
pub record DataVersion : Type 0 where
  pub address : ℕ
  pub generation : ℕ
  pub tuples : TupleTree
  pub attributes : AttributeTree

pub record WriteDataResponse : Type 0 where
  pub generation : ℕ
  pub replayed : Bool

pub record IdempotencyState : Type 0 where
  pub fingerprint : Text
  pub response : WriteDataResponse

pub record DataState : Type 0 where
  pub generation : ℕ
  pub current : DataVersion
  pub idempotency : List (Text × IdempotencyState)

pub record GenerationWait : Type 0 where
  pub address : ℕ
  pub refs : ℕ

-- The domain, the namespace and the name.
abbrev pub CommitReservationKey : Type 0
CommitReservationKey = Text × (Text × Text)

pub record CommitReservation : Type 0 where
  pub address : ℕ
  pub key : CommitReservationKey
  pub operation : Text
  pub idempotency_key : Text
  pub fingerprint : Text

pub record Store : Type 0 where
  pub effective_time : ℕ
  pub revisions : List ((Text × Text) × RevisionRecord)
  pub revision_order : List (Text × RevisionTree)
  pub slots : List ((Text × Text) × SlotState)
  pub data_states : List (Text × DataState)
  pub waiters : List (Text × GenerationWait)
  pub events : List (Text × EventState)
  pub reservations : List (CommitReservationKey × CommitReservation)
  pub next_address : ℕ

-- `newStoreWithCursorKeySource`; the cursor key is in `Environment`.
abbrev pub new_store : Store
new_store = record {
  effective_time = 0;
  revisions = [];
  revision_order = [];
  slots = [];
  data_states = [];
  waiters = [];
  events = [];
  reservations = [];
  next_address = 0;
}

-- What the store reads beside its state: the table `unicode.Cf`, its cursor key, and whether a record's
-- artifact passes the DSL package's verification.
pub record Environment : Type 0 where
  pub format : ℕ → Bool
  pub sealing : Sealing
  pub valid_record : RevisionRecord → Bool

abbrev pub reserve_free :
    Option CommitReservation → CommitReservationKey → Store → Option CommitReservation × Store
reserve_free (some r) key s = (none, s)
reserve_free none key s =
    let r : CommitReservation = record {
      address = s.next_address;
      key = key;
      operation = [];
      idempotency_key = [];
      fingerprint = [];
    } in
    (
      some r,
      record s { reservations = insert key r s.reservations; next_address = s.next_address + 1 },
    )

unfoldable pub reserve_commit : CommitReservationKey → Store → Option CommitReservation × Store
reserve_commit key s = reserve_free (lookup key s.reservations) key s

abbrev same_reservation : Option CommitReservation → CommitReservation → Bool
same_reservation none r = false
same_reservation (some held) r = held.address == r.address

unfoldable pub owns_commit_reservation : CommitReservation → Store → Bool
owns_commit_reservation r s = same_reservation (lookup r.key s.reservations) r

unfoldable pub release_commit_reservation : CommitReservation → Store → Store
unfolding owns_commit_reservation
release_commit_reservation r s =
    if owns_commit_reservation r s
    then record s { reservations = erase r.key s.reservations }
    else s

-- The effective time of a candidate, which is then the store's.
abbrev pub effective_time_of : ℕ → Store → ℕ
effective_time_of candidate s = max candidate s.effective_time

abbrev pub with_effective_time : ℕ → Store → Store
with_effective_time now s = record s { effective_time = now }

module _ (env : Environment) where
  -- The event input without its cursor and time, which this fills in.
  unfoldable pub new_event : StateEvent → ℕ → Store → Result EventRecord
  unfolding new_cursor new_state_event
  new_event input occurred_at s = do
    sequence ← next_event_sequence (lookup input.namespace s.events)
    cursor ← new_cursor env.sealing (record {
      domain = codes "event";
      namespace = input.namespace;
      slot = [];
      position = sequence;
      revision_published_at = 0;
      revision_id = [];
    })
    value ← new_state_event env.format (record input { cursor = cursor; occurred_at = occurred_at })
    ok (record { sequence = sequence; value = value })

abbrev pub append_to_log : EventRecord → ℕ → Store → Store
append_to_log event now s =
    let namespace = event.value.namespace in
    record s {
      events = insert namespace (append_event event now (lookup namespace s.events)) s.events;
    }
