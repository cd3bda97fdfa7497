-- ===== src/Memory/Publications.antt =====
-- store/memory/revisions.go: `PutRevision` as its two critical sections, and `GetRevision`. The record
-- is the one that `NewRevisionRecordFromWrite` made of the write.
use policy_engine.Prelude.{Bool, true, false, ℕ, not, [], Option, none, some, if◌then◌else◌}
use policy_engine.Prelude.Assoc.{lookup, insert}
use policy_engine.Prelude.Text.{Text, text_eq, codes}
use policy_engine.Errors.{Result, ok, err, not_found, internal, integrity, invalid_argument}
use policy_engine.Model.Records.{RevisionRecord, StateEvent, revision_published}
use policy_engine.Index.Avl.{leaf}
use policy_engine.Index.Revisions.{RevisionTree, revision_set}
use policy_engine.Memory.Events.{EventRecord, next_event_sequence}
use policy_engine.Memory.Store.{
  Text_Eq, Pair_Eq, CommitReservation, Store, Environment, reserve_commit, owns_commit_reservation,
  release_commit_reservation, effective_time_of, with_effective_time, new_event, append_to_log,
}

pub record PutRevisionResult : Type 0 where
  pub revision : RevisionRecord
  pub created : Bool

-- The first section ends as that of a write does.
pub data BeginPut : Type 0 where
  waits : ℕ → BeginPut
  answered : Result PutRevisionResult → BeginPut
  begun : CommitReservation → BeginPut

-- `Option.none` is a panic of the index.
abbrev pub Commit : Type 0
Commit = Option (Result PutRevisionResult × Store)

abbrev pub put_behind : Option CommitReservation → BeginPut
put_behind none = answered (err internal)
put_behind (some current) = waits current.address

abbrev pub held_revision : RevisionRecord → Store → Option RevisionRecord
held_revision r s = lookup (r.metadata.namespace, r.metadata.id) s.revisions

abbrev pub order_of : Option RevisionTree → RevisionTree
order_of none = leaf
order_of (some t) = t

-- The input of the event of a publication.
abbrev pub publication_event : RevisionRecord → StateEvent
publication_event r = record {
  namespace = r.metadata.namespace;
  cursor = [];
  kind = revision_published;
  revision_id = r.metadata.id;
  slot = [];
  slot_generation = 0;
  data_generation = 0;
  occurred_at = 0;
}

module _ (env : Environment) where
  abbrev pub put_revision_result : RevisionRecord → Bool → Result PutRevisionResult
  put_revision_result r created =
      if env.valid_record r
      then ok (record { revision = r; created = created })
      else err invalid_argument

  abbrev existing : RevisionRecord → RevisionRecord → Result PutRevisionResult
  existing r held =
      if text_eq held.artifact r.artifact then put_revision_result held false else err integrity

  unfoldable pub put_sequenced : CommitReservation → Result ℕ → Store → BeginPut × Store
  unfolding release_commit_reservation
  put_sequenced c (err e) s = (answered (err e), release_commit_reservation c s)
  put_sequenced c (ok sequence) s = (begun c, s)

  unfoldable pub put_held :
      RevisionRecord → CommitReservation → Option RevisionRecord → Store → BeginPut × Store
  unfolding put_sequenced release_commit_reservation
  put_held r c (some held) s = (answered (existing r held), release_commit_reservation c s)
  put_held r c none s =
      put_sequenced c (next_event_sequence (lookup r.metadata.namespace s.events)) s

  unfoldable pub put_reserved : RevisionRecord → Option CommitReservation × Store → BeginPut × Store
  unfolding put_held release_commit_reservation
  put_reserved r (none, s) =
      (put_behind (lookup (codes "revision", (r.metadata.namespace, [])) s.reservations), s)
  put_reserved r (some c, s) = put_held r c (held_revision r s) s

  unfoldable pub begin_put_revision : RevisionRecord → Store → BeginPut × Store
  unfolding put_reserved reserve_commit release_commit_reservation
  begin_put_revision r s =
      put_reserved r (reserve_commit (codes "revision", (r.metadata.namespace, [])) s)

  abbrev pub store_revision :
      RevisionRecord → EventRecord → ℕ → Option RevisionTree → Store → Commit
  store_revision r event now none s = none
  store_revision r event now (some ordered) s =
      let namespace = r.metadata.namespace in
      some (
        ok (record { revision = r; created = true }),
        append_to_log event now (record s {
          revisions = insert (namespace, r.metadata.id) r s.revisions;
          revision_order = insert namespace ordered s.revision_order;
        }),
      )

  unfoldable pub publish_event : RevisionRecord → ℕ → Result EventRecord → Store → Commit
  unfolding revision_set
  publish_event r now (err e) s = some (err e, s)
  publish_event r now (ok event) s =
      store_revision r event now
        (revision_set (order_of (lookup r.metadata.namespace s.revision_order)) r) s

  unfoldable pub publish_sequenced : RevisionRecord → ℕ → Result ℕ → Store → Commit
  unfolding new_event revision_set publish_event
  publish_sequenced r candidate (err e) s = some (err e, s)
  publish_sequenced r candidate (ok sequence) s =
      let now = effective_time_of candidate s in
      let timed = with_effective_time now s in
      publish_event r now (new_event env (publication_event r) now timed) timed

  unfoldable pub publish_held : RevisionRecord → ℕ → Option RevisionRecord → Store → Commit
  unfolding new_event revision_set publish_sequenced
  publish_held r candidate (some held) s = some (existing r held, s)
  publish_held r candidate none s =
      publish_sequenced r candidate (next_event_sequence (lookup r.metadata.namespace s.events)) s

  -- The second section, at the time that the clock gave.
  unfoldable pub commit_put_revision : RevisionRecord → CommitReservation → ℕ → Store → Commit
  unfolding owns_commit_reservation new_event revision_set publish_held
  commit_put_revision r c candidate s =
      if not (owns_commit_reservation c s)
      then some (err internal, s)
      else publish_held r candidate (held_revision r s) s

abbrev get_held : Option RevisionRecord → Result RevisionRecord
get_held none = err not_found
get_held (some r) = ok r

abbrev pub get_revision : Text → Text → Store → Result RevisionRecord
get_revision namespace revision_id s = get_held (lookup (namespace, revision_id) s.revisions)
