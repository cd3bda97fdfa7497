-- ===== src/Memory/Interleavings/BeginWrites/Cases.antt =====
-- The first section of `WriteData`, branch by branch.
use policy_engine.Prelude.{
  ◌&&◌, ◌+◌, ◌≡◌, refl, Bool, true, false, Option, none, some, if◌then◌else◌,
}
use policy_engine.Prelude.Assoc.{lookup, Distinct}
use policy_engine.Prelude.Text.{codes, text_eq}
use policy_engine.Errors.{Result, ok, err, conflict}
use policy_engine.Memory.Store.{
  Text_Eq, Pair_Eq, CommitReservation, Store, IdempotencyState, reserve_commit, reserve_free,
}
use policy_engine.Memory.Writes.{
  Write, BeginWrite, waits, answered, begin_write, begin_behind, begin_reserved, begin_recorded,
  begin_current, begin_mutated, check_write, marked, with_reservation, base_version, mutated_tuples,
  mutated_attributes, new_write_data_response, data_of, idempotency_record,
}
use policy_engine.Index.Tuples.{TupleTree}
use policy_engine.Index.Tries.{AttributeTree}
use policy_engine.Memory.Interleavings.Ready.{data_key}
use policy_engine.Memory.Writes.{generation_of}
use policy_engine.Memory.Interleavings.Begins.{
  Answers-refl, Reserved, Reserved-Answers, new_reservation, with_new_reservation,
  new_reservation-Reserved,
}
use policy_engine.Memory.Interleavings.BeginWrites.{
  Checked, marked-Reserved, check_write-ok, WriteBegins, pend-WriteBegins,
}

mutated-WriteBegins :
    (d : Write) (s t : Store) (r : CommitReservation) (x : Option TupleTree)
    (y : Option (Option AttributeTree))
    → Distinct s.reservations
    → Reserved r s t
    → Checked d r t
    → mutated_tuples d (base_version (data_of d t) t.next_address).tuples ≡ x
    → mutated_attributes d (base_version (data_of d t) t.next_address).attributes ≡ y
    → WriteBegins d s (
        begin_mutated r
          (base_version (data_of d t) t.next_address)
          (generation_of (data_of d t) + 1)
          x
          y
          t)
unfolding begin_mutated
mutated-WriteBegins d s t r none y dist h c e f = tt
mutated-WriteBegins d s t r (some x) none dist h c e f = tt
mutated-WriteBegins d s t r (some x) (some none) dist h c e f = Reserved-Answers r s t dist h
mutated-WriteBegins d s t r (some x) (some (some y)) dist h c e f =
    pend-WriteBegins d s t r x y (new_write_data_response (generation_of (data_of d t) + 1) false)
      dist h c e f refl

current-WriteBegins :
    (d : Write) (s t : Store) (r : CommitReservation) (g : Result (Unit {0}))
    → Distinct s.reservations
    → Reserved r s t
    → r.key ≡ data_key d.request.namespace
    → idempotency_record (data_of d t) d.request.idempotency_key ≡ none
    → check_write d t ≡ g
    → WriteBegins d s (begin_current d r g t)
unfolding begin_current
current-WriteBegins d s t r (err e) dist h k f c = Reserved-Answers r s t dist h
current-WriteBegins d s t r (ok tt) dist h k f c =
    let o = lookup (d.request.namespace, d.request.validation_revision_id) t.revisions in
    let checked = check_write-ok d t o refl c in
    let base = base_version (data_of d t) t.next_address in
    mutated-WriteBegins d s t r (mutated_tuples d base.tuples)
      (mutated_attributes d base.attributes) dist h
      (record {
        key = k;
        target = checked.0.0;
        found = checked.0.1;
        expected = checked.1;
        room = checked.2;
        fresh = f;
      })
      refl refl

recorded-WriteBegins :
    (d : Write) (s t : Store) (r : CommitReservation) (o : Option IdempotencyState)
    → Distinct s.reservations
    → Reserved r s t
    → r.key ≡ data_key d.request.namespace
    → idempotency_record (data_of d t) d.request.idempotency_key ≡ o
    → WriteBegins d s (begin_recorded d r o t)
unfolding begin_recorded
recorded-WriteBegins d s t r (some previous) dist h k e = Reserved-Answers r s t dist h
recorded-WriteBegins d s t r none dist h k e =
    current-WriteBegins d s t r (check_write d t) dist h k e refl

either-WriteBegins :
    (d : Write) (s : Store) (b : Bool) (x y : BeginWrite)
    → WriteBegins d s (x, s)
    → WriteBegins d s (y, s)
    → WriteBegins d s ((if b then x else y), s)
either-WriteBegins d s true x y h k = h
either-WriteBegins d s false x y h k = k

behind-WriteBegins :
    (d : Write) (s : Store) (o : Option CommitReservation)
    → Distinct s.reservations
    → WriteBegins d s (begin_behind d o, s)
behind-WriteBegins d s none dist = Answers-refl s dist
behind-WriteBegins d s (some pending) dist =
    either-WriteBegins d s
      (text_eq pending.operation (codes "data")
        && text_eq pending.idempotency_key d.request.idempotency_key
        && text_eq pending.fingerprint d.fingerprint)
      (waits pending.address) (answered (err conflict)) (Answers-refl s dist) (Answers-refl s dist)

reserve-WriteBegins :
    (d : Write) (s : Store) (o : Option CommitReservation)
    → Distinct s.reservations
    → lookup (data_key d.request.namespace) s.reservations ≡ o
    → WriteBegins d s (begin_reserved d (reserve_free o (data_key d.request.namespace) s))
unfolding begin_reserved
reserve-WriteBegins d s (some r) dist e =
    behind-WriteBegins d s (lookup (data_key d.request.namespace) s.reservations) dist
reserve-WriteBegins d s none dist e =
    let key = data_key d.request.namespace in
    let r = new_reservation key s in
    let held = with_reservation (marked d r) (with_new_reservation key s) in
    recorded-WriteBegins d s held (marked d r)
      (idempotency_record (data_of d held) d.request.idempotency_key) dist
      (marked-Reserved d r s (with_new_reservation key s) (new_reservation-Reserved key s dist e))
      refl refl

pub begin_write-WriteBegins :
    (d : Write) (s : Store) → Distinct s.reservations → WriteBegins d s (begin_write d s)
unfolding begin_write reserve_commit
begin_write-WriteBegins d s dist =
    reserve-WriteBegins d s (lookup (data_key d.request.namespace) s.reservations) dist refl
