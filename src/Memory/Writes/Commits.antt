-- ===== src/Memory/Writes/Commits.antt =====
-- The second section of `WriteData`, store/memory/idempotency.go.
use policy_engine.Prelude.{ℕ, Bool, ◌&&◌, not, List, [], Option, none, some, if◌then◌else◌, ◌==◌}
use policy_engine.Prelude.Assoc.{lookup, insert, erase}
use policy_engine.Prelude.Text.{Text}
use policy_engine.Errors.{Result, ok, err, ◌>>◌, conflict, internal}
use policy_engine.Model.Records.{StateEvent, data_written}
use policy_engine.Memory.Events.{EventRecord, next_event_sequence}
use policy_engine.Memory.Store.{
  Text_Eq, Pair_Eq, DataState, WriteDataResponse, IdempotencyState, Store, Environment,
  owns_commit_reservation, effective_time_of, with_effective_time, new_event, append_to_log,
}
use policy_engine.Memory.Slots.{require_revision, require_or}
use policy_engine.Memory.Writes.{Write, idempotency_record, replay, data_of, PendingWrite}

-- `notifyGenerationWaitersLocked`
abbrev pub notify_generation_waiters : Text → Store → Store
notify_generation_waiters namespace s = record s { waiters = erase namespace s.waiters }

abbrev pub same_base : Write → PendingWrite → Option DataState → Bool
same_base w p none = (w.request.expected_generation == 0) && (p.base.generation == 0)
same_base w p (some state) =
    (state.generation == w.request.expected_generation) && (state.current.address == p.base.address)

unfoldable pub check_commit_write : Write → PendingWrite → Store → Result (Unit {0})
check_commit_write w p s = do
  require_or conflict (same_base w p (data_of w s))
  require_revision (lookup (w.request.namespace, w.request.validation_revision_id) s.revisions)

-- The input of the event of a write.
abbrev pub write_event : Write → PendingWrite → StateEvent
write_event w p = record {
  namespace = w.request.namespace;
  cursor = [];
  kind = data_written;
  revision_id = [];
  slot = [];
  slot_generation = 0;
  data_generation = p.candidate.generation;
  occurred_at = 0;
}

abbrev pub recorded : Option DataState → List (Text × IdempotencyState)
recorded none = []
recorded (some state) = state.idempotency

abbrev pub written : Write → PendingWrite → Option DataState → DataState
written w p state = record {
  generation = p.candidate.generation;
  current = p.candidate;
  idempotency =
      insert w.request.idempotency_key
        (record { fingerprint = w.fingerprint; response = p.response }) (recorded state);
}

module _ (env : Environment) where
  abbrev pub store_write :
      Write → PendingWrite → ℕ → Result EventRecord → Store → Result WriteDataResponse × Store
  store_write w p now (err e) s = (err e, s)
  store_write w p now (ok event) s =
      let namespace = w.request.namespace in
      (
        ok p.response,
        append_to_log event now (
            notify_generation_waiters namespace (record s {
              data_states = insert namespace (written w p (data_of w s)) s.data_states;
            })),
      )

  unfoldable pub commit_sequenced :
      Write → PendingWrite → ℕ → Result ℕ → Store → Result WriteDataResponse × Store
  unfolding new_event
  commit_sequenced w p candidate (err e) s = (err e, s)
  commit_sequenced w p candidate (ok sequence) s =
      let now = effective_time_of candidate s in
      let timed = with_effective_time now s in
      store_write w p now (new_event env (write_event w p) now timed) timed

  unfoldable pub commit_recorded :
      Write
      → PendingWrite
      → ℕ
      → Result (Unit {0})
      → Option IdempotencyState
      → Store
      → Result WriteDataResponse × Store
  unfolding new_event commit_sequenced
  commit_recorded w p candidate (err e) previous s = (err e, s)
  commit_recorded w p candidate (ok u) (some previous) s = (replay w previous, s)
  commit_recorded w p candidate (ok u) none s =
      commit_sequenced w p candidate (next_event_sequence (lookup w.request.namespace s.events)) s

  -- The second section, at the time that the clock gave.
  unfoldable pub commit_write : Write → PendingWrite → ℕ → Store → Result WriteDataResponse × Store
  unfolding owns_commit_reservation check_commit_write new_event commit_recorded
  commit_write w p candidate s =
      if not (owns_commit_reservation p.reservation s)
      then (err internal, s)
      else commit_recorded w p candidate (check_commit_write w p s)
          (idempotency_record (data_of w s) w.request.idempotency_key) s
