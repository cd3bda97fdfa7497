-- ===== src/Memory/Interleavings/Changes.antt =====
-- What the second sections change: only what is under their key, and no reservation.
use policy_engine.Prelude.{ℕ, ◌≡◌, refl, sym, ◌∙◌, ap, Option, none, some, Bool-cases, inl, inr}
use policy_engine.Prelude.Assoc.{none-some, lookup, lookup-insert_other}
use policy_engine.Prelude.Text.{codes}
use policy_engine.Errors.{Result, ok, err}
use policy_engine.Model.Records.{RevisionRecord}
use policy_engine.Contracts.Slots.{ActivateRequest, ActivateResponse}
use policy_engine.Memory.Events.{EventRecord, next_event_sequence}
use policy_engine.Memory.Store.{
  Text_Eq, Pair_Eq, CommitReservation, Store, Environment, IdempotencyState, new_event,
  effective_time_of, with_effective_time, owns_commit_reservation,
}
use policy_engine.Memory.Slots.{
  Begun, activated, slot_of, commit_activate, commit_checked, store_activation, check_commit,
  build_activation,
}
use policy_engine.Memory.Writes.{Write, PendingWrite, data_of, idempotency_record}
use policy_engine.Memory.Writes.Commits.{
  commit_write, store_write, commit_sequenced, commit_recorded, written, write_event,
  check_commit_write,
}
use policy_engine.Memory.Publications.{
  Commit, held_revision, store_revision, publish_event, publish_sequenced, publish_held,
  commit_put_revision, publication_event, order_of,
}
use policy_engine.Index.Revisions.{RevisionTree, revision_set}
use policy_engine.Memory.Interleavings.Ready.{
  slot_key, data_key, revision_key, Changes, Changes-refl, Changes-timed,
}

module _ (env : Environment) where
  store_activation-Changes :
      (q : ActivateRequest) (now : ℕ) (r : Result (ActivateResponse × EventRecord)) (s : Store)
      → Changes (slot_key q.namespace q.slot) s (store_activation env q now r s).1
  store_activation-Changes q now (err e) s = Changes-refl (slot_key q.namespace q.slot) s
  store_activation-Changes q now (ok (response, event)) s = record {
    apart = record {
      slots = λ n. λ l. λ d.
          lookup-insert_other (n, l) (q.namespace, q.slot)
            (activated (slot_of q s) response.activation) s.slots
            (λ e. d (ap (λ j. (codes "slot", j)) e));
      data_states = λ n. λ d. refl;
      revisions = λ n. λ i. λ d. refl;
      kept = λ j. λ r. λ h. h;
    };
    table = refl;
    address = refl;
  }

  commit_checked-Changes :
      (q : ActivateRequest) (candidate : ℕ) (r : Result ℕ) (s : Store)
      → Changes (slot_key q.namespace q.slot) s (commit_checked env q candidate r s).1
  unfolding build_activation
  commit_checked-Changes q candidate (err e) s = Changes-refl (slot_key q.namespace q.slot) s
  commit_checked-Changes q candidate (ok generation) s =
      let now = effective_time_of candidate s in
      let timed = with_effective_time now s in
      Changes-timed (slot_key q.namespace q.slot) now s
        (store_activation env q now (build_activation env q generation now timed) timed).1
        (store_activation-Changes q now (build_activation env q generation now timed) timed)

  pub commit_activate-Changes :
      (q : ActivateRequest) (b : Begun) (now : ℕ) (s : Store)
      → Changes (slot_key q.namespace q.slot) s (commit_activate env q b now s).1
  unfolding commit_activate
  commit_activate-Changes q b now s = elim (Bool-cases (owns_commit_reservation b.reservation s)) [
    | inl o ↦ rw o (commit_checked-Changes q now (check_commit q b.generation s) s)
    | inr o ↦ rw o (Changes-refl (slot_key q.namespace q.slot) s)
  ]

  store_write-Changes :
      (d : Write) (p : PendingWrite) (now : ℕ) (r : Result EventRecord) (s : Store)
      → Changes (data_key d.request.namespace) s (store_write env d p now r s).1
  store_write-Changes d p now (err e) s = Changes-refl (data_key d.request.namespace) s
  store_write-Changes d p now (ok event) s = record {
    apart = record {
      slots = λ n. λ l. λ a. refl;
      data_states = λ n. λ a.
          lookup-insert_other n d.request.namespace (written d p (data_of d s)) s.data_states
            (λ e. a (ap data_key e));
      revisions = λ n. λ i. λ a. refl;
      kept = λ j. λ r. λ h. h;
    };
    table = refl;
    address = refl;
  }

  commit_sequenced-Changes :
      (d : Write) (p : PendingWrite) (candidate : ℕ) (r : Result ℕ) (s : Store)
      → Changes (data_key d.request.namespace) s (commit_sequenced env d p candidate r s).1
  unfolding new_event commit_sequenced
  commit_sequenced-Changes d p candidate (err e) s = Changes-refl (data_key d.request.namespace) s
  commit_sequenced-Changes d p candidate (ok sequence) s =
      let now = effective_time_of candidate s in
      let timed = with_effective_time now s in
      let event = new_event env (write_event d p) now timed in
      Changes-timed (data_key d.request.namespace) now s (store_write env d p now event timed).1
        (store_write-Changes d p now event timed)

  commit_recorded-Changes :
      (d : Write) (p : PendingWrite) (candidate : ℕ) (r : Result (Unit {0}))
      (previous : Option IdempotencyState) (s : Store)
      → Changes (data_key d.request.namespace) s (commit_recorded env d p candidate r previous s).1
  unfolding commit_recorded
  commit_recorded-Changes d p candidate (err e) o s = Changes-refl (data_key d.request.namespace) s
  commit_recorded-Changes d p candidate (ok u) (some previous) s =
      Changes-refl (data_key d.request.namespace) s
  commit_recorded-Changes d p candidate (ok u) none s =
      commit_sequenced-Changes d p candidate
        (next_event_sequence (lookup d.request.namespace s.events)) s

  pub commit_write-Changes :
      (d : Write) (p : PendingWrite) (now : ℕ) (s : Store)
      → Changes (data_key d.request.namespace) s (commit_write env d p now s).1
  unfolding commit_write
  commit_write-Changes d p now s = elim (Bool-cases (owns_commit_reservation p.reservation s)) [
    | inl o ↦ rw o (
        commit_recorded-Changes d p now (check_commit_write d p s)
          (idempotency_record (data_of d s) d.request.idempotency_key) s)
    | inr o ↦ rw o (Changes-refl (data_key d.request.namespace) s)
  ]

  -- A publication that returned changes what is under its key.
  abbrev pub PutChanges : RevisionRecord → Store → Commit → Type 0
  PutChanges r s none = Unit
  PutChanges r s (some (a, t)) = Changes (revision_key r.metadata.namespace) s t

  store_revision-Changes :
      (r : RevisionRecord) (event : EventRecord) (now : ℕ) (o : Option RevisionTree) (s : Store)
      → held_revision r s ≡ none
      → PutChanges r s (store_revision env r event now o s)
  store_revision-Changes r event now none s h = tt
  store_revision-Changes r event now (some ordered) s h = record {
    apart = record {
      slots = λ n. λ l. λ a. refl;
      data_states = λ n. λ a. refl;
      revisions = λ n. λ i. λ a.
          lookup-insert_other (n, i) (r.metadata.namespace, r.metadata.id) r s.revisions
            (λ e. a (ap (λ j. revision_key j.0) e));
      kept = λ j. λ x. λ f.
          lookup-insert_other j (r.metadata.namespace, r.metadata.id) r s.revisions
            (λ e. none-some x (sym h ∙ rw (sym e) f))
          ∙ f;
    };
    table = refl;
    address = refl;
  }

  publish_event-Changes :
      (r : RevisionRecord) (now : ℕ) (event : Result EventRecord) (s : Store)
      → held_revision r s ≡ none
      → PutChanges r s (publish_event env r now event s)
  unfolding revision_set publish_event
  publish_event-Changes r now (err e) s h = Changes-refl (revision_key r.metadata.namespace) s
  publish_event-Changes r now (ok event) s h =
      store_revision-Changes r event now
        (revision_set (order_of (lookup r.metadata.namespace s.revision_order)) r) s h

  PutChanges-timed :
      (r : RevisionRecord) (now : ℕ) (s : Store) (c : Commit)
      → PutChanges r (with_effective_time now s) c
      → PutChanges r s c
  PutChanges-timed r now s none c = tt
  PutChanges-timed r now s (some (a, t)) c =
      Changes-timed (revision_key r.metadata.namespace) now s t c

  publish_sequenced-Changes :
      (r : RevisionRecord) (candidate : ℕ) (o : Result ℕ) (s : Store)
      → held_revision r s ≡ none
      → PutChanges r s (publish_sequenced env r candidate o s)
  unfolding new_event revision_set publish_sequenced
  publish_sequenced-Changes r candidate (err e) s h =
      Changes-refl (revision_key r.metadata.namespace) s
  publish_sequenced-Changes r candidate (ok sequence) s h =
      let now = effective_time_of candidate s in
      let timed = with_effective_time now s in
      let event = new_event env (publication_event r) now timed in
      PutChanges-timed r now s (publish_event env r now event timed)
        (publish_event-Changes r now event timed h)

  publish_held-Changes :
      (r : RevisionRecord) (candidate : ℕ) (o : Option RevisionRecord) (s : Store)
      → held_revision r s ≡ o
      → PutChanges r s (publish_held env r candidate o s)
  unfolding publish_held
  publish_held-Changes r candidate (some held) s h =
      Changes-refl (revision_key r.metadata.namespace) s
  publish_held-Changes r candidate none s h =
      publish_sequenced-Changes r candidate
        (next_event_sequence (lookup r.metadata.namespace s.events)) s h

  pub commit_put_revision-Changes :
      (r : RevisionRecord) (c : CommitReservation) (now : ℕ) (s : Store)
      → PutChanges r s (commit_put_revision env r c now s)
  unfolding commit_put_revision
  commit_put_revision-Changes r c now s = elim (Bool-cases (owns_commit_reservation c s)) [
    | inl o ↦ rw o (publish_held-Changes r now (held_revision r s) s refl)
    | inr o ↦ rw o (Changes-refl (revision_key r.metadata.namespace) s)
  ]
