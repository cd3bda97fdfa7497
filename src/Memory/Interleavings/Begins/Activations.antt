-- ===== src/Memory/Interleavings/Begins/Activations.antt =====
-- The first section of `Activate`, branch by branch.
use policy_engine.Prelude.{ℕ, ◌≡◌, refl, Option, none, some}
use policy_engine.Prelude.Assoc.{lookup, Distinct}
use policy_engine.Errors.{Result, ok, err}
use policy_engine.Contracts.Slots.{ActivateRequest}
use policy_engine.Memory.Store.{
  Text_Eq, Pair_Eq, CommitReservation, Store, reserve_commit, reserve_free,
}
use policy_engine.Memory.Slots.{
  Begun, check_begin, begin_activate, activate_reserved, begun_or_released,
}
use policy_engine.Memory.Interleavings.{activating}
use policy_engine.Memory.Interleavings.Ready.{slot_key}
use policy_engine.Memory.Interleavings.Begins.{
  Enters, Answers, Reserved, Answers-refl, check_begin-ok, Reserved-Answers, Reserved-Enters,
  new_reservation, with_new_reservation, new_reservation-Reserved,
}

-- The outcome of the first section of `Activate`.
abbrev pub Activates : ActivateRequest → Store → Result Begun × Store → Type 0
Activates q s (err e, t) = Answers s t
Activates q s (ok b, t) = Enters (activating q b) s t

begun_or_released-Activates :
    (q : ActivateRequest) (s t : Store) (r : CommitReservation) (g : Result ℕ)
    → Distinct s.reservations
    → Reserved r s t
    → r.key ≡ slot_key q.namespace q.slot
    → check_begin q t ≡ g
    → Activates q s (begun_or_released r g t)
unfolding begun_or_released
begun_or_released-Activates q s t r (err e) d h k c = Reserved-Answers r s t d h
begun_or_released-Activates q s t r (ok g) d h k c =
    let checked =
      check_begin-ok q t (lookup (q.namespace, q.target_revision_id) t.revisions) g refl c in
    Reserved-Enters (activating q (record { reservation = r; generation = g })) s t h (record {
      key = k;
      target = checked.0.0;
      found = checked.0.1;
      matches = checked.1;
      generation = checked.2;
    })

reserve-Activates :
    (q : ActivateRequest) (s : Store) (o : Option CommitReservation)
    → Distinct s.reservations
    → lookup (slot_key q.namespace q.slot) s.reservations ≡ o
    → Activates q s (activate_reserved q (reserve_free o (slot_key q.namespace q.slot) s))
unfolding activate_reserved
reserve-Activates q s (some r) d e = Answers-refl s d
reserve-Activates q s none d e =
    let key = slot_key q.namespace q.slot in
    let t = with_new_reservation key s in
    begun_or_released-Activates q s t (new_reservation key s) (check_begin q t) d
      (new_reservation-Reserved key s d e) refl refl

pub begin_activate-Activates :
    (q : ActivateRequest) (s : Store) → Distinct s.reservations → Activates q s (begin_activate q s)
unfolding begin_activate reserve_commit
begin_activate-Activates q s d =
    reserve-Activates q s (lookup (slot_key q.namespace q.slot) s.reservations) d refl
