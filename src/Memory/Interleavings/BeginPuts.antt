-- ===== src/Memory/Interleavings/BeginPuts.antt =====
-- The first section of `PutRevision`.
use policy_engine.Prelude.{ℕ, ◌≡◌, refl, Option, none, some}
use policy_engine.Prelude.Assoc.{lookup, Distinct}
use policy_engine.Errors.{Result, ok, err}
use policy_engine.Model.Records.{RevisionRecord}
use policy_engine.Memory.Events.{next_event_sequence}
use policy_engine.Memory.Store.{
  Text_Eq, Pair_Eq, CommitReservation, Store, Environment, reserve_commit, reserve_free,
}
use policy_engine.Memory.Publications.{
  BeginPut, put_behind, begin_put_revision, put_reserved, put_held, put_sequenced, held_revision,
}
use policy_engine.Memory.Interleavings.{putting}
use policy_engine.Memory.Interleavings.Ready.{revision_key}
use policy_engine.Memory.Interleavings.Begins.{
  Answers, Enters, Answers-refl, Reserved, Reserved-Answers, Reserved-Enters, new_reservation,
  with_new_reservation, new_reservation-Reserved,
}

-- The outcome of the first section of `PutRevision`.
abbrev pub PutBegins : RevisionRecord → Store → BeginPut × Store → Type 0
PutBegins r s (BeginPut.waits i, t) = Answers s t
PutBegins r s (BeginPut.answered a, t) = Answers s t
PutBegins r s (BeginPut.begun c, t) = Enters (putting r c) s t

module _ (env : Environment) where
  sequenced-PutBegins :
      (r : RevisionRecord) (s t : Store) (c : CommitReservation) (o : Result ℕ)
      → Distinct s.reservations
      → Reserved c s t
      → c.key ≡ revision_key r.metadata.namespace
      → held_revision r t ≡ none
      → PutBegins r s (put_sequenced env c o t)
  unfolding put_sequenced
  sequenced-PutBegins r s t c (err e) d h k f = Reserved-Answers c s t d h
  sequenced-PutBegins r s t c (ok n) d h k f =
      Reserved-Enters (putting r c) s t h (record { key = k; unpublished = f })

  held-PutBegins :
      (r : RevisionRecord) (s t : Store) (c : CommitReservation) (o : Option RevisionRecord)
      → Distinct s.reservations
      → Reserved c s t
      → c.key ≡ revision_key r.metadata.namespace
      → held_revision r t ≡ o
      → PutBegins r s (put_held env r c o t)
  unfolding put_held
  held-PutBegins r s t c (some held) d h k f = Reserved-Answers c s t d h
  held-PutBegins r s t c none d h k f =
      sequenced-PutBegins r s t c (next_event_sequence (lookup r.metadata.namespace t.events)) d h k
        f

  behind-PutBegins :
      (r : RevisionRecord) (s : Store) (o : Option CommitReservation)
      → Distinct s.reservations
      → PutBegins r s (put_behind o, s)
  behind-PutBegins r s none d = Answers-refl s d
  behind-PutBegins r s (some c) d = Answers-refl s d

  reserve-PutBegins :
      (r : RevisionRecord) (s : Store) (o : Option CommitReservation)
      → Distinct s.reservations
      → lookup (revision_key r.metadata.namespace) s.reservations ≡ o
      → PutBegins r s (put_reserved env r (reserve_free o (revision_key r.metadata.namespace) s))
  unfolding put_reserved
  reserve-PutBegins r s (some c) d e =
      behind-PutBegins r s (lookup (revision_key r.metadata.namespace) s.reservations) d
  reserve-PutBegins r s none d e =
      let key = revision_key r.metadata.namespace in
      let t = with_new_reservation key s in
      held-PutBegins r s t (new_reservation key s) (held_revision r t) d
        (new_reservation-Reserved key s d e) refl refl

  pub begin_put_revision-PutBegins :
      (r : RevisionRecord) (s : Store)
      → Distinct s.reservations
      → PutBegins r s (begin_put_revision env r s)
  unfolding begin_put_revision reserve_commit
  begin_put_revision-PutBegins r s d =
      reserve-PutBegins r s (lookup (revision_key r.metadata.namespace) s.reservations) d refl
