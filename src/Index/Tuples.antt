-- ===== src/Index/Tuples.antt =====
-- The index of relationship tuples: `tupleSet`, `tupleDelete` and `queryTupleBucket`.
pub mod Laws
use policy_engine.Prelude.{Bool, Option}
use policy_engine.Prelude.Text.{Text}
use policy_engine.Model.Data.{EntityRef, Tuple, RelationshipTuple}
use policy_engine.Index.Avl.{Tree, set, delete}
use policy_engine.Index.Avl.Buckets.{Visitor, query}
use policy_engine.Index.Keys.{compare_tuple_bucket}
use policy_engine.Index.Keys.Laws.{tuple_order}

-- `tupleNode`
abbrev pub TupleTree : Type 0
TupleTree = Tree Tuple RelationshipTuple

unfoldable pub tuple_set : TupleTree → Tuple → RelationshipTuple → Option TupleTree
unfolding set
tuple_set root key value = set tuple_order key value root

unfoldable pub tuple_delete : TupleTree → Tuple → Option TupleTree
unfolding delete
tuple_delete root key = delete tuple_order key root

unfoldable pub query_tuple_bucket :
    {S : Type 0} → TupleTree → EntityRef → Text → Visitor RelationshipTuple S → S → Bool × S
unfolding query
query_tuple_bucket root resource relation visit state =
    query (λ tuple. compare_tuple_bucket tuple resource relation) visit root state
