-- ===== src/Index/Tuples/Laws.antt =====
-- The index of tuples is a map from tuples to facts, and a bucket query visits one relation of one
-- resource.
use mathlib.Core.Path.{fun_ext}
use policy_engine.Prelude.{
  ◌≡◌, refl, ◌∙◌, Ordering, Bool, true, false, ◌&&◌, if◌then◌else◌, inl, inr, [], ◌∷◌, Option, some,
  none, List, arith,
}
use policy_engine.Prelude.Text.{Text, text_eq, text_eq_iff}
use policy_engine.Model.Data.{EntityRef, Tuple, RelationshipTuple}
use policy_engine.Index.Avl.Balance.{entries}
use policy_engine.Index.Avl.Entries.{find, overlay}
use policy_engine.Index.Avl.Laws.{find-put, find-erase, Ascending-put, Ascending-erase}
use policy_engine.Index.Avl.Updates.{Ordering-cases, set-Grows}
use policy_engine.Index.Avl.Deletes.{delete-Shrinks}
use policy_engine.Index.Avl.Reads.{IsIndex}
use policy_engine.Index.Avl.Buckets.{Visitor, both, Bucket, visit_bucket, query-visit_bucket}
use policy_engine.Index.Keys.{compare_entity, compare_tuple, compare_tuple_bucket}
use policy_engine.Index.Keys.Laws.{tuple_order, entity_order, text_order}
use policy_engine.Index.Tuples.{TupleTree, tuple_set, tuple_delete, query_tuple_bucket}

-- The fact that an index holds under a tuple.
abbrev pub stored : TupleTree → Tuple → Option RelationshipTuple
stored t key = find tuple_order key (entries t)

-- A write into an index never fails: the result is an index again (ordered and balanced), which
-- holds the fact under its tuple and the old facts under all others.
pub tuple_set-stored :
    (t : TupleTree) (key : Tuple) (value : RelationshipTuple)
    → IsIndex tuple_order t
    → (t' : TupleTree) × (tuple_set t key value ≡ some t')
      × IsIndex tuple_order t'
      × ((q : Tuple) → stored t' q ≡ overlay (compare_tuple q key) (some value) (stored t q))
unfolding tuple_set
tuple_set-stored t key value i =
    let g = set-Grows tuple_order key value t i.avl i.ascending in
    (
      g.result,
      g.returned,
      record {
        avl = g.avl;
        ascending = rw g.kept (Ascending-put tuple_order key value (entries t) i.ascending);
      },
      λ q. rw g.kept (find-put tuple_order q key value (entries t)),
    )

-- A deletion from an index never fails, whether the tuple is there or not: the result is an index
-- again, which holds nothing under the tuple and the old facts under all others.
pub tuple_delete-stored :
    (t : TupleTree) (key : Tuple)
    → IsIndex tuple_order t
    → (t' : TupleTree) × (tuple_delete t key ≡ some t')
      × IsIndex tuple_order t'
      × ((q : Tuple) → stored t' q ≡ overlay (compare_tuple q key) none (stored t q))
unfolding tuple_delete
tuple_delete-stored t key i =
    let g = delete-Shrinks tuple_order key t i.avl i.ascending in
    (
      g.result,
      g.returned,
      record {
        avl = g.avl;
        ascending = rw g.kept (Ascending-erase tuple_order key (entries t) i.ascending);
      },
      λ q. rw g.kept (find-erase tuple_order q key (entries t) i.ascending),
    )

-- A loop that hands each value to the visitor, up to the first refusal.
abbrev pub visit_all : {V S : Type 0} → Visitor V S → List V → S → Bool × S
visit_all visit [] s = (true, s)
visit_all visit (v ∷ vs) s = both (visit v s) (λ s. visit_all visit vs s)

module _ (resource : EntityRef) (relation : Text) where
  abbrev pub side : Tuple → Ordering
  side tuple = compare_tuple_bucket tuple resource relation

  pub side_lt_down :
      (j k : Tuple) → compare_tuple k j ≡ Ordering.gt → side k ≡ Ordering.lt → side j ≡ Ordering.lt
  unfolding compare_tuple_bucket compare_tuple
  side_lt_down j k h s = ground (
    arith,
    entity_order.gt_swap k.resource j.resource,
    entity_order.lt_trans j.resource k.resource resource,
    entity_order.eq_sound k.resource j.resource,
    entity_order.eq_sound k.resource resource,
    text_order.gt_swap k.relation j.relation,
    text_order.lt_trans j.relation k.relation relation,
    text_order.eq_sound k.relation j.relation,
  )

  pub side_gt_up :
      (j k : Tuple) → compare_tuple k j ≡ Ordering.lt → side k ≡ Ordering.gt → side j ≡ Ordering.gt
  unfolding compare_tuple_bucket compare_tuple
  side_gt_up j k h s = ground (
    arith,
    entity_order.lt_swap resource j.resource,
    entity_order.gt_swap k.resource resource,
    entity_order.lt_trans resource k.resource j.resource,
    entity_order.eq_sound k.resource j.resource,
    entity_order.eq_sound k.resource resource,
    text_order.lt_swap relation j.relation,
    text_order.gt_swap k.relation relation,
    text_order.lt_trans relation k.relation j.relation,
    text_order.eq_sound k.relation j.relation,
  )

  abbrev bucket : Bucket tuple_order
  bucket = record { side = side; lt_down = side_lt_down; gt_up = side_gt_up }

  -- Membership in the bucket, field by field.
  abbrev pub in_bucket : Tuple → Bool
  in_bucket tuple =
      text_eq tuple.resource.type_name resource.type_name
      && text_eq tuple.resource.id resource.id
      && text_eq tuple.relation relation

  in_bucket-side :
      (tuple : Tuple) → in_bucket tuple ≡ elim (side tuple) [ Ordering.eq ↦ true | _ ↦ false ]
  unfolding compare_tuple_bucket compare_entity
  in_bucket-side tuple = ground (
    arith,
    text_eq_iff tuple.resource.type_name resource.type_name,
    text_eq_iff tuple.resource.id resource.id,
    text_eq_iff tuple.relation relation,
    text_order.eq_sound tuple.resource.type_name resource.type_name,
    text_order.eq_sound tuple.resource.id resource.id,
    text_order.eq_sound tuple.relation relation,
    text_order.self resource.type_name,
    text_order.self resource.id,
    text_order.self relation,
  )

  -- The facts of the bucket, in the order of their tuples.
  abbrev pub facts : List (Tuple × RelationshipTuple) → List RelationshipTuple
  facts [] = []
  facts ((tuple, fact) ∷ m) = let rest = facts m in if in_bucket tuple then fact ∷ rest else rest

  visit_bucket-facts :
      {S : Type 0} (visit : Visitor RelationshipTuple S) (m : List (Tuple × RelationshipTuple))
      (s : S)
      → visit_bucket side visit m s ≡ visit_all visit (facts m) s
  unfolding visit_bucket
  visit_bucket-facts visit [] s = refl
  visit_bucket-facts visit ((tuple, fact) ∷ m) s = elim (Ordering-cases (side tuple)) [
    | inl below ↦ rw (in_bucket-side tuple, below, visit_bucket) (visit_bucket-facts visit m s)
    | inr (inl above) ↦
        rw (in_bucket-side tuple, above, visit_bucket) (visit_bucket-facts visit m s)
    | inr (inr same) ↦
        rw (in_bucket-side tuple, same, visit_bucket) (rw (fun_ext (visit_bucket-facts visit m)))
  ]

  -- A bucket query of an index hands the visitor exactly the facts whose tuple has the resource and
  -- the relation, in the order of their tuples, up to the visitor's first refusal, and says whether
  -- there was none.
  pub query_tuple_bucket-facts :
      {S : Type 0} (visit : Visitor RelationshipTuple S) (t : TupleTree) (s : S)
      → IsIndex tuple_order t
      → query_tuple_bucket t resource relation visit s ≡ visit_all visit (facts (entries t)) s
  unfolding query_tuple_bucket
  query_tuple_bucket-facts visit t s i =
      query-visit_bucket tuple_order bucket visit t s i.ascending
      ∙ visit_bucket-facts visit (entries t) s
