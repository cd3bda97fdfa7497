-- ===== src/Index/Tests.antt =====
-- The indexes at work on a few revisions, tuples, entities and segments.
use policy_engine.Prelude.{
  arith, ℕ, ◌≡◌, refl, true, false, List, [], ◌∷◌, ◌++◌, none, some, take, drop, length, ltb,
}
use policy_engine.Prelude.Text.{Text, codes, compare_text, text_eq}
use policy_engine.Model.Data.{EntityRef, Tuple, RelationshipTuple}
use policy_engine.Model.Records.{RevisionRecord}
use policy_engine.Index.Avl.{height, Tree, leaf, node, set, delete, get}
use policy_engine.Index.Avl.Balance.{entries, IsAvl, Joins}
use policy_engine.Index.Copies.{tuple_rebalance, tuple_new_node}
use policy_engine.Index.Copies.Laws.{tuple_rebalance-Joins}
use policy_engine.Index.Avl.Entries.{find, overlay}
use policy_engine.Index.Avl.Reads.{IsIndex}
use policy_engine.Index.Avl.Pages.{collect}
use policy_engine.Index.Keys.{
  RevisionKey, compare_tuple, compare_entity, compare_subject, compare_revision_key,
}
use policy_engine.Index.Keys.Laws.{tuple_order, entity_order, text_order, revision_key_order}
use policy_engine.Index.Revisions.{RevisionTree, revision_key_for, revision_set, revision_page}
use policy_engine.Index.Revisions.Laws.{
  IsRevisionIndex, revision_set-stored, revision_page-records, revision_page-continues, following,
}
use policy_engine.Index.Tuples.{TupleTree, tuple_set, tuple_delete, query_tuple_bucket}
use policy_engine.Index.Tuples.Laws.{
  stored, tuple_set-stored, tuple_delete-stored, visit_all, facts, query_tuple_bucket-facts,
}
use policy_engine.Index.Attributes.{
  entity_get, entity_set, entity_delete, segment_get, segment_set, segment_delete,
}
use policy_engine.Index.Attributes.Laws.{entity_get-updates, segment_get-updates}

program : Unit {0}
unfolding height compare_tuple compare_entity compare_subject compare_revision_key compare_text
    text_eq set delete get revision_set revision_page tuple_set tuple_delete query_tuple_bucket
program = tt

abbrev revision : ℕ → RevisionRecord
revision n = record {
  metadata = record { namespace = codes "acme"; id = n ∷ []; published_at = n };
  artifact = [];
  provenance = record {
    source_name = [];
    original_source = [];
    original_source_digest = [];
    valid = true;
  };
}

abbrev revisions : RevisionTree
revisions =
    node 2 (revision_key_for (revision 2)) (revision 2)
      (node 1 (revision_key_for (revision 1)) (revision 1) leaf leaf)
      (node 1 (revision_key_for (revision 3)) (revision 3) leaf leaf)

abbrev document : EntityRef
document = record { type_name = codes "document"; id = codes "d1" }

abbrev tuple : Text → Tuple
tuple user = record {
  resource = document;
  relation = codes "viewer";
  subject = record { type_name = codes "user"; id = user; relation = [] };
}

abbrev fact : Text → RelationshipTuple
fact user = record { tuple = tuple user; expires_at = 0; has_expiry = false }

abbrev tuples : TupleTree
tuples =
    node 2 (tuple (codes "b")) (fact (codes "b"))
      (node 1 (tuple (codes "a")) (fact (codes "a")) leaf leaf) leaf

abbrev segments : Tree Text ℕ
segments = node 1 (codes "owner") 7 leaf leaf

abbrev entities : Tree EntityRef ℕ
entities = node 1 document 7 leaf leaf

revisions-IsRevisionIndex : IsRevisionIndex revisions
unfolding program
revisions-IsRevisionIndex = record {
  index = record { avl = ground arith; ascending = ground arith };
  keyed = (refl, (refl, (refl, tt)));
}

tuples-IsIndex : IsIndex tuple_order tuples
unfolding program
tuples-IsIndex = record { avl = ground arith; ascending = ground arith }

segments-IsIndex : IsIndex text_order segments
unfolding program
segments-IsIndex = record { avl = ground arith; ascending = ground arith }

entities-IsIndex : IsIndex entity_order entities
unfolding program
entities-IsIndex = record { avl = ground arith; ascending = ground arith }

-- A page of two of three, and the page after it, with the visits that each takes.
two_pages :
    (revision_page revisions (revision_key_for (revision 0)) false 2 collect []
      ≡ (3, true, revision 1 ∷ revision 2 ∷ []))
    × (revision_page revisions (revision_key_for (revision 2)) true 2 collect []
        ≡ (2, false, revision 3 ∷ []))
unfolding program
two_pages = (refl, refl)

revision_set-stored_example :
    (t' : RevisionTree) × (revision_set revisions (revision 4) ≡ some t')
    × IsRevisionIndex t'
    × ((q : RevisionKey)
        → find revision_key_order q (entries t')
          ≡ overlay
              (compare_revision_key q (revision_key_for (revision 4)))
              (some (revision 4))
              (find revision_key_order q (entries revisions)))
revision_set-stored_example = revision_set-stored revisions (revision 4) revisions-IsRevisionIndex

revision_page-records_example :
    ((revision_page revisions (revision_key_for (revision 1)) true 1 collect []).2
      ≡ take 1 (following (revision_key_for (revision 1)) true revisions))
    × ((revision_page revisions (revision_key_for (revision 1)) true 1 collect []).1
        ≡ ltb 1 (length (following (revision_key_for (revision 1)) true revisions)))
revision_page-records_example =
    revision_page-records revisions (revision_key_for (revision 1)) true 1 revisions-IsRevisionIndex

revision_page-continues_example :
    (front : List RevisionRecord) × (last : RevisionRecord) × ((revision_page revisions
        (revision_key_for (revision 0))
        false
        2
        collect
        []).2
      ≡ front ++ (last ∷ []))
    × (following (revision_key_for last) true revisions
        ≡ drop 2 (following (revision_key_for (revision 0)) false revisions))
unfolding program
revision_page-continues_example =
    revision_page-continues revisions (revision_key_for (revision 0)) false 1
      revisions-IsRevisionIndex refl

tuple_set-stored_example :
    (t' : TupleTree) × (tuple_set tuples (tuple (codes "c")) (fact (codes "c")) ≡ some t')
    × IsIndex tuple_order t'
    × ((q : Tuple)
        → stored t' q
          ≡ overlay
              (compare_tuple q (tuple (codes "c")))
              (some (fact (codes "c")))
              (stored tuples q))
tuple_set-stored_example =
    tuple_set-stored tuples (tuple (codes "c")) (fact (codes "c")) tuples-IsIndex

tuple_delete-stored_example :
    (t' : TupleTree) × (tuple_delete tuples (tuple (codes "b")) ≡ some t')
    × IsIndex tuple_order t'
    × ((q : Tuple)
        → stored t' q ≡ overlay (compare_tuple q (tuple (codes "b"))) none (stored tuples q))
tuple_delete-stored_example = tuple_delete-stored tuples (tuple (codes "b")) tuples-IsIndex

query_tuple_bucket-facts_example :
    query_tuple_bucket tuples document (codes "viewer") collect []
    ≡ visit_all collect (facts document (codes "viewer") (entries tuples)) []
query_tuple_bucket-facts_example =
    query_tuple_bucket-facts document (codes "viewer") collect tuples [] tuples-IsIndex

entity_get-updates_example :
    ((t' : Tree EntityRef ℕ) × (entity_set entities document 9 ≡ some t')
      × IsIndex entity_order t'
      × ((q : EntityRef)
          → entity_get t' q ≡ overlay (compare_entity q document) (some 9) (entity_get entities q)))
    × ((t' : Tree EntityRef ℕ) × (entity_delete entities document ≡ some t')
        × IsIndex entity_order t'
        × ((q : EntityRef)
            → entity_get t' q ≡ overlay (compare_entity q document) none (entity_get entities q)))
entity_get-updates_example = entity_get-updates entities document 9 entities-IsIndex

segment_get-updates_example :
    ((t' : Tree Text ℕ) × (segment_set segments (codes "org") 9 ≡ some t')
      × IsIndex text_order t'
      × ((q : Text)
          → segment_get t' q
            ≡ overlay (compare_text q (codes "org")) (some 9) (segment_get segments q)))
    × ((t' : Tree Text ℕ) × (segment_delete segments (codes "org") ≡ some t')
        × IsIndex text_order t'
        × ((q : Text)
            → segment_get t' q
              ≡ overlay (compare_text q (codes "org")) none (segment_get segments q)))
segment_get-updates_example = segment_get-updates segments (codes "org") 9 segments-IsIndex

-- A left child that leans right, two higher than its sibling.
abbrev leaning : TupleTree
leaning =
    node 2 (tuple (codes "a")) (fact (codes "a")) leaf
      (node 1 (tuple (codes "b")) (fact (codes "b")) leaf leaf)

leaning-IsAvl : IsAvl leaning
unfolding program
leaning-IsAvl = ground arith

tuple_rebalance-Joins_example :
    Joins leaning
      (tuple (codes "c"))
      (fact (codes "c"))
      leaf
      (tuple_rebalance (tuple_new_node (tuple (codes "c")) (fact (codes "c")) leaning leaf))
unfolding program
tuple_rebalance-Joins_example =
    tuple_rebalance-Joins (tuple (codes "c")) (fact (codes "c")) leaning leaf leaning-IsAvl tt
      (omega arith) (omega arith)
