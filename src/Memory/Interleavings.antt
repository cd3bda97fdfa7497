-- ===== src/Memory/Interleavings.antt =====
-- The commits of the in-memory store as a transition system: each step holds the store's mutex once, and
-- the steps of different calls interleave in any order.
pub mod Holds
pub mod Ready
pub mod Changes
pub mod Begins
pub mod BeginWrites
pub mod BeginPuts
pub mod Coordination
pub mod Outcomes
pub mod Activations
pub mod Soundness
pub mod SoundWrites
pub mod Invariant
pub mod Replays
pub mod Idempotency
mod Tests
use policy_engine.Prelude.{ℕ, ◌≡◌, List, [], Option, none, some}
use policy_engine.Prelude.Assoc.{lookup, insert, erase}
use policy_engine.Prelude.Text.{Text}
use policy_engine.Errors.{Result, ErrorCategory, ok, err}
use policy_engine.Contracts.Slots.{ActivateRequest}
use policy_engine.Model.Records.{RevisionRecord}
use policy_engine.Memory.Store.{
  Text_Eq, Pair_Eq, CommitReservation, Store, Environment, new_store, release_commit_reservation,
}
use policy_engine.Memory.Slots.{Begun, begin_activate, commit_activate}
use policy_engine.Memory.Writes.{Write, PendingWrite, BeginWrite, begin_write}
use policy_engine.Memory.Writes.Commits.{commit_write}
use policy_engine.Memory.Publications.{
  PutRevisionResult, BeginPut, begin_put_revision, commit_put_revision,
}
use policy_engine.Memory.Store.{WriteDataResponse}
use policy_engine.Cache.Revisions.{ℕ_Eq}

-- A call that holds a reservation: between its sections, or behind the second one.
pub data Call : Type 0 where
  activating : ActivateRequest → Begun → Call
  writing : Write → PendingWrite → Call
  putting : RevisionRecord → CommitReservation → Call
  finished : CommitReservation → Call

abbrev pub reservation_of : Call → CommitReservation
reservation_of (activating q b) = b.reservation
reservation_of (writing w p) = p.reservation
reservation_of (putting r c) = c
reservation_of (finished c) = c

-- The store, and the calls by the address of their reservation.
pub record World : Type 0 where
  pub store : Store
  pub calls : List (ℕ × Call)

abbrev pub world : Store → List (ℕ × Call) → World
world s calls = record { store = s; calls = calls }

abbrev pub enters : Call → World → Store → World
enters c w s = world s (insert (reservation_of c).address c w.calls)

module _ (env : Environment) where
  pub data Step : World → World → Type 0 where
    activate_begins :
        {w : World} {s : Store} (q : ActivateRequest) (b : Begun)
        → begin_activate q w.store ≡ (ok b, s)
        → Step w (enters (activating q b) w s)
    activate_refused :
        {w : World} {s : Store} (q : ActivateRequest) (e : ErrorCategory)
        → begin_activate q w.store ≡ (err e, s)
        → Step w (world s w.calls)
    activate_commits :
        {w : World} (i : ℕ) (q : ActivateRequest) (b : Begun) (now : ℕ)
        → lookup i w.calls ≡ some (activating q b)
        → Step w (
            world
              (commit_activate env q b now w.store).1
              (insert i (finished b.reservation) w.calls))
    write_begins :
        {w : World} {s : Store} (d : Write) (p : PendingWrite)
        → begin_write d w.store ≡ (BeginWrite.begun p, s)
        → Step w (enters (writing d p) w s)
    write_answered :
        {w : World} {s : Store} (d : Write) (r : Result WriteDataResponse)
        → begin_write d w.store ≡ (BeginWrite.answered r, s)
        → Step w (world s w.calls)
    write_commits :
        {w : World} (i : ℕ) (d : Write) (p : PendingWrite) (now : ℕ)
        → lookup i w.calls ≡ some (writing d p)
        → Step w
            (world (commit_write env d p now w.store).1 (insert i (finished p.reservation) w.calls))
    put_begins :
        {w : World} {s : Store} (r : RevisionRecord) (c : CommitReservation)
        → begin_put_revision env r w.store ≡ (BeginPut.begun c, s)
        → Step w (enters (putting r c) w s)
    put_answered :
        {w : World} {s : Store} (r : RevisionRecord) (a : Result PutRevisionResult)
        → begin_put_revision env r w.store ≡ (BeginPut.answered a, s)
        → Step w (world s w.calls)
    put_commits :
        {w : World} {s : Store} {a : Result PutRevisionResult} (i : ℕ) (r : RevisionRecord)
        (c : CommitReservation) (now : ℕ)
        → lookup i w.calls ≡ some (putting r c)
        → commit_put_revision env r c now w.store ≡ some (a, s)
        → Step w (world s (insert i (finished c) w.calls))
    -- The call is over, or was cancelled between its sections.
    leaves :
        {w : World} (i : ℕ) (c : Call)
        → lookup i w.calls ≡ some c
        → Step w (world (release_commit_reservation (reservation_of c) w.store) (erase i w.calls))

  pub data Reaches : World → World → Type 0 where
    here : {w : World} → Reaches w w
    then_step : {u v w : World} → Reaches u v → Step v w → Reaches u w

abbrev pub new_world : World
new_world = world new_store []
