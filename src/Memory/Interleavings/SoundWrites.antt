-- ===== src/Memory/Interleavings/SoundWrites.antt =====
-- A commit of data and a publication keep the stored state sound.
use policy_engine.Prelude.{
  ◌==◌, ℕ, suc, ◌≤◌, ◌<◌, ◌≡◌, refl, arith, false, Option, none, some, Bool-cases, inl, inr,
}
use policy_engine.Prelude.Assoc.{lookup, insert-from}
use policy_engine.Prelude.Text.{Text}
use policy_engine.Errors.{Result, ok, err}
use policy_engine.Model.Records.{RevisionRecord}
use policy_engine.Memory.Events.{max_uint64, EventRecord, next_event_sequence}
use policy_engine.Memory.Store.{
  Text_Eq, Pair_Eq, CommitReservation, Store, Environment, DataState, IdempotencyState, new_event,
  effective_time_of, with_effective_time, owns_commit_reservation,
}
use policy_engine.Memory.Writes.{
  Write, PendingWrite, generation_of, data_of, idempotency_record, generation_of,
}
use policy_engine.Memory.Writes.Commits.{
  recorded, commit_write, store_write, commit_sequenced, commit_recorded, written, write_event,
  check_commit_write,
}
use policy_engine.Memory.Publications.{
  Commit, held_revision, store_revision, publish_event, publish_sequenced, publish_held,
  commit_put_revision, publication_event, order_of,
}
use policy_engine.Index.Revisions.{RevisionTree, revision_set}
use policy_engine.Cache.Revisions.{ℕ_Eq}
use policy_engine.Memory.Interleavings.Outcomes.{new_event-ok}
use policy_engine.Memory.Interleavings.Ready.{ReadyWrite}
use policy_engine.Memory.Interleavings.Soundness.{IsData, Sound, Sound-timed, Logs, insert-Logs}

next_bound : (n : ℕ) → n ≤ max_uint64 → (n == max_uint64) ≡ false → suc n ≤ max_uint64
next_bound n h e = ground arith

none-generation :
    (o : Option DataState)
    → ((d : DataState) → o ≡ some d → IsData d)
    → generation_of o ≤ max_uint64
none-generation none i = omega arith
none-generation (some d) i = (i d refl).in_range

earlier :
    (o : Option DataState) (k : Text) (r : IdempotencyState)
    → ((x : DataState) → o ≡ some x → IsData x)
    → lookup k (recorded o) ≡ some r
    → (0 < r.response.generation) × (r.response.generation ≤ generation_of o)
earlier none k r i f = ground arith
earlier (some x) k r i f = (i x refl).recorded k r f

-- What a write leaves of a namespace's data.
written-IsData :
    (d : Write) (p : PendingWrite) (o : Option DataState)
    → ((x : DataState) → o ≡ some x → IsData x)
    → p.candidate.generation ≡ suc (generation_of o)
    → (generation_of o == max_uint64) ≡ false
    → p.response ≡ record { generation = p.candidate.generation; replayed = false }
    → IsData (written d p o)
written-IsData d p o i next room response = record {
  positive = omega (arith, next);
  in_range = rw next (next_bound (generation_of o) (none-generation o i) room);
  pinned = refl;
  recorded = λ k. λ r. λ f.
      elim (insert-from k d.request.idempotency_key
        (record { fingerprint = d.fingerprint; response = p.response }) r (recorded o) f) [
          | inl (same, new) ↦ rw (new, response) (omega (arith, next), omega (arith, next))
          | inr (differs, old) ↦ let e = earlier o k r i old in (e.0, omega (arith, next, e.1))
        ];
}

module _ (env : Environment) where
  store_write-Sound :
      (d : Write) (p : PendingWrite) (now : ℕ) (r : Result EventRecord) (s : Store)
      → Sound s
      → ReadyWrite d p s
      → new_event env (write_event d p) now s ≡ r
      → Sound (store_write env d p now r s).1
  unfolding Logs
  store_write-Sound d p now (err e) s i y b = i
  store_write-Sound d p now (ok event) s i y b =
      let built = new_event-ok env (write_event d p) now s event b in
      let n = d.request.namespace in
      record {
        slots = i.slots;
        data_states = λ j. λ x. λ f.
            elim (insert-from j n (written d p (data_of d s)) x s.data_states f) [
              | inl (same, new) ↦
                  rw new
                    (written-IsData d p (data_of d s) (i.data_states n) y.next y.room y.response)
              | inr (differs, old) ↦ i.data_states j x old
            ];
        logs = insert-Logs s event now i.logs (rw built.namespace built.sequence);
      }

  ReadyWrite-timed :
      (d : Write) (p : PendingWrite) (now : ℕ) (s : Store)
      → ReadyWrite d p s
      → ReadyWrite d p (with_effective_time now s)
  ReadyWrite-timed d p now s y = record {
    key = y.key;
    target = y.target;
    found = y.found;
    base = y.base;
    fresh = y.fresh;
    next = y.next;
    room = y.room;
    from = y.from;
    tuples = y.tuples;
    attributes = y.attributes;
    response = y.response;
  }

  commit_sequenced-Sound :
      (d : Write) (p : PendingWrite) (candidate : ℕ) (r : Result ℕ) (s : Store)
      → Sound s
      → ReadyWrite d p s
      → Sound (commit_sequenced env d p candidate r s).1
  unfolding commit_sequenced
  commit_sequenced-Sound d p candidate (err e) s i y = i
  commit_sequenced-Sound d p candidate (ok n) s i y =
      let now = effective_time_of candidate s in
      let timed = with_effective_time now s in
      store_write-Sound d p now (new_event env (write_event d p) now timed) timed
        (Sound-timed now s i) (ReadyWrite-timed d p now s y) refl

  commit_recorded-Sound :
      (d : Write) (p : PendingWrite) (candidate : ℕ) (r : Result (Unit {0}))
      (o : Option IdempotencyState) (s : Store)
      → Sound s
      → ReadyWrite d p s
      → Sound (commit_recorded env d p candidate r o s).1
  unfolding commit_recorded
  commit_recorded-Sound d p candidate (err e) o s i y = i
  commit_recorded-Sound d p candidate (ok u) (some previous) s i y = i
  commit_recorded-Sound d p candidate (ok u) none s i y =
      commit_sequenced-Sound d p candidate
        (next_event_sequence (lookup d.request.namespace s.events)) s i y

  pub commit_write-Sound :
      (d : Write) (p : PendingWrite) (now : ℕ) (s : Store)
      → Sound s
      → ReadyWrite d p s
      → Sound (commit_write env d p now s).1
  unfolding commit_write
  commit_write-Sound d p now s i y = elim (Bool-cases (owns_commit_reservation p.reservation s)) [
    | inl o ↦ rw o (
        commit_recorded-Sound d p now (check_commit_write d p s)
          (idempotency_record (data_of d s) d.request.idempotency_key) s i y)
    | inr o ↦ rw o i
  ]

  -- A publication that returned.
  abbrev pub PutSound : Commit → Type 0
  PutSound none = Unit
  PutSound (some (a, t)) = Sound t

  store_revision-Sound :
      (r : RevisionRecord) (event : EventRecord) (now : ℕ) (o : Option RevisionTree) (s : Store)
      → Sound s
      → next_event_sequence (lookup event.value.namespace s.events) ≡ ok event.sequence
      → PutSound (store_revision env r event now o s)
  unfolding Logs
  store_revision-Sound r event now none s i h = tt
  store_revision-Sound r event now (some ordered) s i h = record {
    slots = i.slots;
    data_states = i.data_states;
    logs = insert-Logs s event now i.logs h;
  }

  publish_event-Sound :
      (r : RevisionRecord) (now : ℕ) (e : Result EventRecord) (s : Store)
      → Sound s
      → new_event env (publication_event r) now s ≡ e
      → PutSound (publish_event env r now e s)
  unfolding publish_event revision_set
  publish_event-Sound r now (err e) s i b = i
  publish_event-Sound r now (ok event) s i b =
      let built = new_event-ok env (publication_event r) now s event b in
      store_revision-Sound r event now
        (revision_set (order_of (lookup r.metadata.namespace s.revision_order)) r) s i
        (rw built.namespace built.sequence)

  publish_sequenced-Sound :
      (r : RevisionRecord) (candidate : ℕ) (o : Result ℕ) (s : Store)
      → Sound s
      → PutSound (publish_sequenced env r candidate o s)
  unfolding publish_sequenced
  publish_sequenced-Sound r candidate (err e) s i = i
  publish_sequenced-Sound r candidate (ok n) s i =
      let now = effective_time_of candidate s in
      let timed = with_effective_time now s in
      publish_event-Sound r now (new_event env (publication_event r) now timed) timed
        (Sound-timed now s i) refl

  publish_held-Sound :
      (r : RevisionRecord) (candidate : ℕ) (o : Option RevisionRecord) (s : Store)
      → Sound s
      → PutSound (publish_held env r candidate o s)
  unfolding publish_held
  publish_held-Sound r candidate (some held) s i = i
  publish_held-Sound r candidate none s i =
      publish_sequenced-Sound r candidate
        (next_event_sequence (lookup r.metadata.namespace s.events)) s i

  pub commit_put_revision-Sound :
      (r : RevisionRecord) (c : CommitReservation) (now : ℕ) (s : Store)
      → Sound s
      → PutSound (commit_put_revision env r c now s)
  unfolding commit_put_revision
  commit_put_revision-Sound r c now s i = elim (Bool-cases (owns_commit_reservation c s)) [
    | inl o ↦ rw o (publish_held-Sound r now (held_revision r s) s i)
    | inr o ↦ rw o i
  ]
