-- ===== src/Memory/Interleavings/Idempotency.antt =====
-- A committed write is answered from its record ever after.
use mathlib.Core.Path.{subst}
use policy_engine.Prelude.{
  ◌==◌, ℕ, suc, ◌≡◌, ◌≢◌, refl, ◌∙◌, ap, arith, true, false, none, some, if◌then◌else◌,
}
use policy_engine.Prelude.Assoc.{lookup, insert}
use policy_engine.Prelude.Text.{Text, text_eq}
use policy_engine.Errors.{ok, err, conflict}
use policy_engine.Memory.Store.{
  Text_Eq, Pair_Eq, CommitReservationKey, Store, Environment, WriteDataResponse, IdempotencyState,
  release_commit_reservation, reserve_commit,
}
use policy_engine.Memory.Slots.{commit_activate}
use policy_engine.Memory.Writes.{
  Write, PendingWrite, begin_write, begin_reserved, begin_recorded, marked, with_reservation,
  data_of,
}
use policy_engine.Memory.Writes.Commits.{commit_write}
use policy_engine.Memory.Interleavings.{
  World, world, Step, activate_begins, activate_refused, activate_commits, write_begins,
  write_answered, write_commits, put_begins, put_answered, put_commits, leaves, Reaches, here,
  then_step, new_world, activating, writing, putting, finished, reservation_of,
}
use policy_engine.Memory.Interleavings.Ready.{
  ReadyWrite, slot_key, data_key, revision_key, Changes, Apart,
}
use policy_engine.Memory.Writes.{generation_of}
use policy_engine.Memory.Interleavings.Begins.{
  Quiet, Answers, Enters, new_reservation, with_new_reservation,
}
use policy_engine.Memory.Interleavings.Begins.Activations.{Activates, begin_activate-Activates}
use policy_engine.Cache.Revisions.{ℕ_Eq}
use policy_engine.Memory.Interleavings.Changes.{
  commit_activate-Changes, commit_put_revision-Changes, PutChanges,
}
use policy_engine.Memory.Interleavings.BeginWrites.{WriteBegins}
use policy_engine.Memory.Interleavings.BeginWrites.Cases.{begin_write-WriteBegins}
use policy_engine.Memory.Interleavings.BeginPuts.{PutBegins, begin_put_revision-PutBegins}
use policy_engine.Memory.Interleavings.Coordination.{Coordinated, Step-Coordinated, Quiet-release}
use policy_engine.Memory.Interleavings.Invariant.{Reaches-IsWorld}
use policy_engine.Memory.Interleavings.Replays.{Recorded, record_of, commit_write-Remembers}
use policy_engine.Memory.Interleavings.Coordination.{Reaches-Coordinated}
use policy_engine.Memory.Writes.{
  replay, answered, generation_of, begin_write, begin_reserved, begin_recorded, marked,
  with_reservation,
}
use policy_engine.Memory.Writes.Commits.{commit_write}

Recorded-Quiet :
    (n k : Text) (x : IdempotencyState) (s t : Store)
    → Quiet s t
    → Recorded n k x s
    → Recorded n k x t
Recorded-Quiet n k x s t q h = rw q.data_states h

Recorded-Apart :
    (n k : Text) (x : IdempotencyState) (j : CommitReservationKey) (s t : Store)
    → Apart j s t
    → data_key n ≢ j
    → Recorded n k x s
    → Recorded n k x t
Recorded-Apart n k x j s t a d h = rw (a.data_states n d) h

data_not_slot : (n m l : Text) → data_key n ≢ slot_key m l
data_not_slot n m l e = ground arith

data_not_revision : (n m : Text) → data_key n ≢ revision_key m
data_not_revision n m e = ground arith

module _ (env : Environment) where
  Step-Recorded :
      (n k : Text) (x : IdempotencyState) {v w : World}
      → Coordinated v
      → Step env v w
      → Recorded n k x v.store
      → Recorded n k x w.store
  Step-Recorded n k x {v = v} h (activate_begins {s = s} q b e) r =
      let begun : Enters (activating q b) v.store s =
        subst (Activates q v.store) e (begin_activate-Activates q v.store h.holds.table_distinct) in
      Recorded-Quiet n k x v.store s begun.quiet r
  Step-Recorded n k x {v = v} h (activate_refused {s = s} q c e) r =
      let answered : Answers v.store s =
        subst (Activates q v.store) e (begin_activate-Activates q v.store h.holds.table_distinct) in
      Recorded-Quiet n k x v.store s answered.quiet r
  Step-Recorded n k x {v = v} h (activate_commits i q b now e) r =
      Recorded-Apart n k x (slot_key q.namespace q.slot) v.store
        (commit_activate env q b now v.store).1 (commit_activate-Changes env q b now v.store).apart
        (data_not_slot n q.namespace q.slot) r
  Step-Recorded n k x {v = v} h (write_begins {s = s} d p e) r =
      let begun : Enters (writing d p) v.store s =
        subst (WriteBegins d v.store) e
          (begin_write-WriteBegins d v.store h.holds.table_distinct) in
      Recorded-Quiet n k x v.store s begun.quiet r
  Step-Recorded n k x {v = v} h (write_answered {s = s} d a e) r =
      let answered : Answers v.store s =
        subst (WriteBegins d v.store) e
          (begin_write-WriteBegins d v.store h.holds.table_distinct) in
      Recorded-Quiet n k x v.store s answered.quiet r
  Step-Recorded n k x {v = v} h (write_commits i d p now e) r =
      let y : ReadyWrite d p v.store = h.ready i (writing d p) e in
      (commit_write-Remembers env d p now v.store y.fresh).keeps n k x r
  Step-Recorded n k x {v = v} h (put_begins {s = s} m c e) r =
      let begun : Enters (putting m c) v.store s =
        subst (PutBegins m v.store) e
          (begin_put_revision-PutBegins env m v.store h.holds.table_distinct) in
      Recorded-Quiet n k x v.store s begun.quiet r
  Step-Recorded n k x {v = v} h (put_answered {s = s} m a e) r =
      let answered : Answers v.store s =
        subst (PutBegins m v.store) e
          (begin_put_revision-PutBegins env m v.store h.holds.table_distinct) in
      Recorded-Quiet n k x v.store s answered.quiet r
  Step-Recorded n k x {v = v} h (put_commits {s = s} i m c now e f) r =
      let changed : Changes (revision_key m.metadata.namespace) v.store s =
        subst (PutChanges env m v.store) f (commit_put_revision-Changes env m c now v.store) in
      Recorded-Apart n k x (revision_key m.metadata.namespace) v.store s changed.apart
        (data_not_revision n m.metadata.namespace) r
  Step-Recorded n k x {v = v} h (leaves i c e) r =
      Recorded-Quiet n k x v.store (release_commit_reservation (reservation_of c) v.store)
        (Quiet-release (reservation_of c) v.store) r

  Reaches-Recorded :
      (n k : Text) (x : IdempotencyState) {v w : World}
      → Coordinated v
      → Reaches env v w
      → Recorded n k x v.store
      → Recorded n k x w.store
  Reaches-Recorded n k x h here r = r
  Reaches-Recorded n k x h (then_step t s) r =
      Step-Recorded n k x (Reaches-Coordinated env h t) s (Reaches-Recorded n k x h t r)

-- The first section where the key is recorded and no write is in flight.
Recorded-answer :
    (d : Write) (x : IdempotencyState) (s : Store)
    → Recorded d.request.namespace d.request.idempotency_key x s
    → lookup (data_key d.request.namespace) s.reservations ≡ none
    → ((begin_write d s).0 ≡ answered (replay d x))
      × ((begin_write d s).1.data_states ≡ s.data_states)
      × ((begin_write d s).1.events ≡ s.events)
unfolding begin_write reserve_commit begin_reserved begin_recorded
Recorded-answer d x s r free =
    let key = data_key d.request.namespace in
    let c = marked d (new_reservation key s) in
    let q = Quiet-release c (with_reservation c (with_new_reservation key s)) in
    rw (free, r) (refl, q.data_states, q.events)

replay_lem :
    (d e : Write) (p : PendingWrite) (n : ℕ)
    → p.response ≡ record { generation = p.candidate.generation; replayed = false }
    → p.candidate.generation ≡ suc n
    → replay e (record_of d p) ≡ (
        if text_eq d.fingerprint e.fingerprint
        then ok (record { generation = p.response.generation; replayed = true })
        else err conflict)
replay_lem d e p n r g = let z : (suc n == 0) ≡ false = ground arith in rw (r, g, z) refl

module _ (env : Environment) where
  -- Data writes are idempotent in every interleaving. Once the
  -- second section of a write has answered with a response, then in every world that the store
  -- reaches from there, and as long as no write of the namespace is in flight, another write with
  -- that key is answered at once: with the same generation, marked as replayed, if its fingerprint is
  -- the same, and with a conflict if not. It changes neither data nor events.
  pub begin_write-replays :
      (v w : World) (i : ℕ) (d e : Write) (p : PendingWrite) (now : ℕ) (a : WriteDataResponse)
      → Reaches env new_world v
      → lookup i v.calls ≡ some (writing d p)
      → (commit_write env d p now v.store).0 ≡ ok a
      → Reaches env
          (world (commit_write env d p now v.store).1 (insert i (finished p.reservation) v.calls))
          w
      → e.request.namespace ≡ d.request.namespace
      → e.request.idempotency_key ≡ d.request.idempotency_key
      → lookup (data_key d.request.namespace) w.store.reservations ≡ none
      → ((begin_write e w.store).0
          ≡ answered (
              if text_eq d.fingerprint e.fingerprint
              then ok (record { generation = a.generation; replayed = true })
              else err conflict))
        × ((begin_write e w.store).1.data_states ≡ w.store.data_states)
        × ((begin_write e w.store).1.events ≡ w.store.events)
  begin_write-replays v w i d e p now a reached call committed later sn sk free =
      let h = (Reaches-IsWorld env v reached).coordinated in
      let y : ReadyWrite d p v.store = h.ready i (writing d p) call in
      let m = (commit_write-Remembers env d p now v.store y.fresh).records a committed in
      let next = Step-Coordinated env h (write_commits i d p now call) in
      let recorded =
        Reaches-Recorded env d.request.namespace d.request.idempotency_key (record_of d p) next
          later m.1 in
      let answer = Recorded-answer e (record_of d p) w.store (rw (sn, sk) recorded) (rw sn free) in
      (
        answer.0
            ∙ ap answered (replay_lem d e p (generation_of (data_of d v.store)) y.response y.next)
            ∙ rw m.0 refl,
        answer.1,
        answer.2,
      )
