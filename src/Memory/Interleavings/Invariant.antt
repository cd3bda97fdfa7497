-- ===== src/Memory/Interleavings/Invariant.antt =====
-- The invariant of the in-memory store over every interleaving of its commits.
use mathlib.Core.Path.{subst}
use policy_engine.Prelude.{sym, arith}
use policy_engine.Errors.{Result, ok, err}
use policy_engine.Contracts.Slots.{ActivateRequest}
use policy_engine.Memory.Store.{Text_Eq, Pair_Eq, Store, Environment, release_commit_reservation}
use policy_engine.Memory.Slots.{Begun}
use policy_engine.Memory.Interleavings.{
  World, Step, activate_begins, activate_refused, activate_commits, write_begins, write_answered,
  write_commits, put_begins, put_answered, put_commits, leaves, Reaches, here, then_step, new_world,
  writing, putting, reservation_of,
}
use policy_engine.Memory.Interleavings.Begins.{Quiet, Answers, Enters}
use policy_engine.Memory.Interleavings.Begins.Activations.{Activates, begin_activate-Activates}
use policy_engine.Cache.Revisions.{ℕ_Eq}
use policy_engine.Memory.Interleavings.BeginWrites.{WriteBegins}
use policy_engine.Memory.Interleavings.BeginWrites.Cases.{begin_write-WriteBegins}
use policy_engine.Memory.Interleavings.BeginPuts.{PutBegins, begin_put_revision-PutBegins}
use policy_engine.Memory.Interleavings.Coordination.{
  Coordinated, Step-Coordinated, Quiet-release, new_world-Coordinated,
}
use policy_engine.Memory.Interleavings.Soundness.{Sound, commit_activate-Sound}
use policy_engine.Memory.Interleavings.SoundWrites.{
  commit_write-Sound, commit_put_revision-Sound, PutSound,
}

pub record IsWorld (w : World) : Type 0 where
  pub coordinated : Coordinated w
  pub sound : Sound w.store

Sound-Quiet : (s t : Store) → Quiet s t → Sound s → Sound t
Sound-Quiet s t q i = record {
  slots = λ j. λ x. λ f. i.slots j x (rw (sym q.slots) f);
  data_states = λ n. λ d. λ f. i.data_states n d (rw (sym q.data_states) f);
  logs = λ n. λ e. λ f. i.logs n e (rw (sym q.events) f);
}

-- What a first section that came to an end leaves.
Activates-Quiet :
    (q : ActivateRequest) (s t : Store) (r : Result Begun) → Activates q s (r, t) → Quiet s t
Activates-Quiet q s t (err e) h = h.quiet
Activates-Quiet q s t (ok b) h = h.quiet

module _ (env : Environment) where
  Step-Sound : {v w : World} → IsWorld v → Step env v w → Sound w.store
  Step-Sound {v = v} h (activate_begins {s = s} q b e) =
      Sound-Quiet v.store s
        (Activates-Quiet q v.store s (ok b) (
          subst (Activates q v.store) e
            (begin_activate-Activates q v.store h.coordinated.holds.table_distinct)))
        h.sound
  Step-Sound {v = v} h (activate_refused {s = s} q c e) =
      Sound-Quiet v.store s
        (Activates-Quiet q v.store s (err c) (
          subst (Activates q v.store) e
            (begin_activate-Activates q v.store h.coordinated.holds.table_distinct)))
        h.sound
  Step-Sound {v = v} h (activate_commits i q b now e) =
      commit_activate-Sound env q b now v.store h.sound
  Step-Sound {v = v} h (write_begins {s = s} d p e) =
      let begun : Enters (writing d p) v.store s =
        subst (WriteBegins d v.store) e
          (begin_write-WriteBegins d v.store h.coordinated.holds.table_distinct) in
      Sound-Quiet v.store s begun.quiet h.sound
  Step-Sound {v = v} h (write_answered {s = s} d r e) =
      let answered : Answers v.store s =
        subst (WriteBegins d v.store) e
          (begin_write-WriteBegins d v.store h.coordinated.holds.table_distinct) in
      Sound-Quiet v.store s answered.quiet h.sound
  Step-Sound {v = v} h (write_commits i d p now e) =
      commit_write-Sound env d p now v.store h.sound (h.coordinated.ready i (writing d p) e)
  Step-Sound {v = v} h (put_begins {s = s} r c e) =
      let begun : Enters (putting r c) v.store s =
        subst (PutBegins r v.store) e
          (begin_put_revision-PutBegins env r v.store h.coordinated.holds.table_distinct) in
      Sound-Quiet v.store s begun.quiet h.sound
  Step-Sound {v = v} h (put_answered {s = s} r a e) =
      let answered : Answers v.store s =
        subst (PutBegins r v.store) e
          (begin_put_revision-PutBegins env r v.store h.coordinated.holds.table_distinct) in
      Sound-Quiet v.store s answered.quiet h.sound
  Step-Sound {v = v} h (put_commits {s = s} i r c now e f) =
      subst (PutSound env) f (commit_put_revision-Sound env r c now v.store h.sound)
  Step-Sound {v = v} h (leaves i c e) =
      Sound-Quiet v.store (release_commit_reservation (reservation_of c) v.store)
        (Quiet-release (reservation_of c) v.store) h.sound

  -- Every world that an interleaving of activations, data writes and publications reaches from the new
  -- store keeps the invariant. Each call holds the reservation of its key, alone, and what its first
  -- section checked is still true. A slot's history has between one and three activations, their
  -- generations go up by one and end with the current one, which is positive and has 64 bits. A
  -- namespace's data is pinned at its generation, and every recorded response is of a generation
  -- that was committed. Every event log ascends above its expiry mark.
  pub Reaches-IsWorld : (w : World) → Reaches env new_world w → IsWorld w
  Reaches-IsWorld _ here = record {
    coordinated = new_world-Coordinated;
    sound = record {
      slots = λ j. λ x. λ f. ground arith;
      data_states = λ n. λ d. λ f. ground arith;
      logs = λ n. λ e. λ f. ground arith;
    };
  }
  Reaches-IsWorld _ (then_step {v = v} r s) =
      let h = Reaches-IsWorld v r in
      record { coordinated = Step-Coordinated env h.coordinated s; sound = Step-Sound h s }
