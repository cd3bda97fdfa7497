-- ===== src/Memory/Interleavings/Coordination.antt =====
-- In every interleaving, the calls hold distinct reservations and what they have checked stays true.
use mathlib.Core.Path.{subst}
use policy_engine.Prelude.{
  length, ℕ, ◌≡◌, ◌≢◌, refl, sym, ◌∙◌, ap, arith, ◌∷◌, some, Bool-cases, inl, inr,
}
use policy_engine.Prelude.Assoc.{lookup, insert, erase}
use policy_engine.Prelude.Text.{Text}
use policy_engine.Memory.Store.{
  Text_Eq, Pair_Eq, CommitReservationKey, CommitReservation, Store, Environment,
  release_commit_reservation, owns_commit_reservation,
}
use policy_engine.Memory.Slots.{commit_activate}
use policy_engine.Memory.Writes.Commits.{commit_write}
use policy_engine.Memory.Interleavings.{
  World, world, enters, Step, activate_begins, activate_refused, activate_commits, write_begins,
  write_answered, write_commits, put_begins, put_answered, put_commits, leaves, Reaches, here,
  then_step, new_world, Call, activating, writing, putting, finished, reservation_of,
}
use policy_engine.Memory.Interleavings.Ready.{
  Ready-Apart, Ready, slot_key, data_key, revision_key, Changes,
}
use policy_engine.Memory.Interleavings.Begins.{Quiet-Apart, Quiet-refl, Quiet, Answers, Enters}
use policy_engine.Memory.Interleavings.Begins.Activations.{Activates, begin_activate-Activates}
use policy_engine.Cache.Revisions.{ℕ_Eq}
use policy_engine.Prelude.Assoc.{insert-from, erase-from}
use policy_engine.Memory.Interleavings.Holds.{
  Holds, Holds-enter, Holds-table, Holds-finish, Holds-leave, one_holder,
}
use policy_engine.Memory.Interleavings.Changes.{
  commit_activate-Changes, commit_write-Changes, commit_put_revision-Changes, PutChanges,
}
use policy_engine.Memory.Interleavings.BeginWrites.{WriteBegins}
use policy_engine.Memory.Interleavings.BeginWrites.Cases.{begin_write-WriteBegins}
use policy_engine.Memory.Interleavings.BeginPuts.{PutBegins, begin_put_revision-PutBegins}

pub record Coordinated (w : World) : Type 0 where
  pub holds : Holds w.calls w.store
  pub ready : (i : ℕ) (c : Call) → lookup i w.calls ≡ some c → Ready c w.store

-- Some other key.
abbrev other_key : CommitReservationKey → CommitReservationKey
other_key k = (0 ∷ k.0, k.1)

longer : (t : Text) → t ≢ (0 ∷ t)
longer t e = omega (arith, ap length e)

differs : (k : CommitReservationKey) → k ≢ other_key k
differs k e = longer k.0 (ap (λ j. j.0) e)

Ready-Quiet : (s t : Store) (x : Call) → Quiet s t → Ready x s → Ready x t
Ready-Quiet s t x q r =
    let k = (reservation_of x).key in
    Ready-Apart (other_key k) s t x (Quiet-Apart (other_key k) s t q) (differs k) r

Coordinated-enter :
    (w : World) (c : Call) (t : Store)
    → Coordinated w
    → Enters c w.store t
    → Coordinated (enters c w t)
Coordinated-enter w c t h e = record {
  holds = Holds-enter w.calls w.store t c h.holds e.free e.fresh e.distinct e.same e.grown;
  ready = λ j. λ x. λ f. elim (insert-from j (reservation_of c).address c x w.calls f) [
    | inl (je, xe) ↦ rw xe e.ready
    | inr (n, g) ↦ Ready-Quiet w.store t x e.quiet (h.ready j x g)
  ];
}

Coordinated-answer :
    (w : World) (t : Store) → Coordinated w → Answers w.store t → Coordinated (world t w.calls)
Coordinated-answer w t h a = record {
  holds = Holds-table w.calls w.store t h.holds a.distinct a.same a.grown;
  ready = λ j. λ x. λ f. Ready-Quiet w.store t x a.quiet (h.ready j x f);
}

Coordinated-commit :
    (w : World) (i : ℕ) (c : Call) (k : CommitReservationKey) (t : Store)
    → Coordinated w
    → lookup i w.calls ≡ some c
    → (reservation_of c).key ≡ k
    → Changes k w.store t
    → Coordinated (world t (insert i (finished (reservation_of c)) w.calls))
Coordinated-commit w i c k t h e same d = record {
  holds =
      Holds-finish w.calls w.store t i c (finished (reservation_of c)) h.holds e refl d.table
        (omega (arith, d.address));
  ready = λ j. λ x. λ f. elim (insert-from j i (finished (reservation_of c)) x w.calls f) [
    | inl (je, xe) ↦ rw xe tt
    | inr (n, g) ↦
        Ready-Apart k w.store t x d.apart
          (λ a. n (one_holder w.calls w.store j i x c h.holds g e (a ∙ sym same))) (h.ready j x g)
  ];
}

pub Quiet-release : (r : CommitReservation) (s : Store) → Quiet s (release_commit_reservation r s)
unfolding release_commit_reservation
Quiet-release r s = elim (Bool-cases (owns_commit_reservation r s)) [
  | inl o ↦ rw o (record {
    effective_time = refl;
    slots = refl;
    data_states = refl;
    revisions = refl;
    revision_order = refl;
    events = refl;
  })
  | inr o ↦ rw o (Quiet-refl s)
]

Coordinated-leave :
    (w : World) (i : ℕ) (c : Call)
    → Coordinated w
    → lookup i w.calls ≡ some c
    → Coordinated (world (release_commit_reservation (reservation_of c) w.store) (erase i w.calls))
Coordinated-leave w i c h e = record {
  holds = Holds-leave w.calls w.store i c h.holds e;
  ready = λ j. λ x. λ f.
      Ready-Quiet w.store (release_commit_reservation (reservation_of c) w.store) x
        (Quiet-release (reservation_of c) w.store)
        (h.ready j x (erase-from j i x w.calls h.holds.calls_distinct f).1);
}

module _ (env : Environment) where
  pub Step-Coordinated : {v w : World} → Coordinated v → Step env v w → Coordinated w
  Step-Coordinated {v = v} h (activate_begins {s = s} q b e) =
      Coordinated-enter v (activating q b) s h
        (subst (Activates q v.store) e (begin_activate-Activates q v.store h.holds.table_distinct))
  Step-Coordinated {v = v} h (activate_refused {s = s} q c e) =
      Coordinated-answer v s h
        (subst (Activates q v.store) e (begin_activate-Activates q v.store h.holds.table_distinct))
  Step-Coordinated {v = v} h (activate_commits i q b now e) =
      Coordinated-commit v i (activating q b) (slot_key q.namespace q.slot)
        (commit_activate env q b now v.store).1 h e (h.ready i (activating q b) e).key
        (commit_activate-Changes env q b now v.store)
  Step-Coordinated {v = v} h (write_begins {s = s} d p e) =
      Coordinated-enter v (writing d p) s h
        (subst (WriteBegins d v.store) e (begin_write-WriteBegins d v.store h.holds.table_distinct))
  Step-Coordinated {v = v} h (write_answered {s = s} d r e) =
      Coordinated-answer v s h
        (subst (WriteBegins d v.store) e (begin_write-WriteBegins d v.store h.holds.table_distinct))
  Step-Coordinated {v = v} h (write_commits i d p now e) =
      Coordinated-commit v i (writing d p) (data_key d.request.namespace)
        (commit_write env d p now v.store).1 h e (h.ready i (writing d p) e).key
        (commit_write-Changes env d p now v.store)
  Step-Coordinated {v = v} h (put_begins {s = s} r c e) = Coordinated-enter v (putting r c) s h (
      subst (PutBegins r v.store) e
        (begin_put_revision-PutBegins env r v.store h.holds.table_distinct))
  Step-Coordinated {v = v} h (put_answered {s = s} r a e) = Coordinated-answer v s h (
      subst (PutBegins r v.store) e
        (begin_put_revision-PutBegins env r v.store h.holds.table_distinct))
  Step-Coordinated {v = v} h (put_commits {s = s} i r c now e f) =
      Coordinated-commit v i (putting r c) (revision_key r.metadata.namespace) s h e
        (h.ready i (putting r c) e).key
        (subst (PutChanges env r v.store) f (commit_put_revision-Changes env r c now v.store))
  Step-Coordinated {v = v} h (leaves i c e) = Coordinated-leave v i c h e

  pub Reaches-Coordinated : {v w : World} → Coordinated v → Reaches env v w → Coordinated w
  Reaches-Coordinated h here = h
  Reaches-Coordinated h (then_step r s) = Step-Coordinated (Reaches-Coordinated h r) s

pub new_world-Coordinated : Coordinated new_world
new_world-Coordinated = record {
  holds = record { calls_distinct = tt; table_distinct = tt; held = λ i. λ c. λ e. ground arith };
  ready = λ i. λ c. λ e. ground arith;
}
