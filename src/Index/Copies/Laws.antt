-- ===== src/Index/Copies/Laws.antt =====
-- Every copy of `rebalance` restores the balance.
use policy_engine.Prelude.{◌+◌, ◌≤◌}
use policy_engine.Prelude.Text.{Text}
use policy_engine.Model.Data.{EntityRef, Tuple, RelationshipTuple}
use policy_engine.Index.Avl.{Tree}
use policy_engine.Index.Avl.Balance.{IsAvl, Joins, rebalance-Joins}
use policy_engine.Index.Copies.{
  tuple_height, tuple_new_node, tuple_rebalance, entity_height, entity_new_node, entity_rebalance,
  segment_height, segment_new_node, segment_rebalance,
}

-- Two balanced trees of tuples whose heights differ by two at most, joined by a new node that is then
-- rebalanced: no field of nil is read, and the result is balanced, keeps the entries in their order
-- and is at most one higher than the higher tree.
pub tuple_rebalance-Joins :
    (key : Tuple) (value : RelationshipTuple) (left right : Tree Tuple RelationshipTuple)
    → IsAvl left
    → IsAvl right
    → tuple_height left ≤ tuple_height right + 2
    → tuple_height right ≤ tuple_height left + 2
    → Joins left key value right (tuple_rebalance (tuple_new_node key value left right))
tuple_rebalance-Joins key value left right a b p q = rebalance-Joins key value left right a b p q

-- The same two trees of entities: no field of nil is read, and the rebalanced join is balanced, keeps
-- the entries in their order and is at most one higher than the higher tree.
pub entity_rebalance-Joins :
    {Trie : Type 0} (key : EntityRef) (value : Trie) (left right : Tree EntityRef Trie)
    → IsAvl left
    → IsAvl right
    → entity_height left ≤ entity_height right + 2
    → entity_height right ≤ entity_height left + 2
    → Joins left key value right (entity_rebalance (entity_new_node key value left right))
entity_rebalance-Joins key value left right a b p q = rebalance-Joins key value left right a b p q

-- The same two trees of path segments: no field of nil is read, and the rebalanced join is balanced,
-- keeps the entries in their order and is at most one higher than the higher tree.
pub segment_rebalance-Joins :
    {Trie : Type 0} (key : Text) (value : Trie) (left right : Tree Text Trie)
    → IsAvl left
    → IsAvl right
    → segment_height left ≤ segment_height right + 2
    → segment_height right ≤ segment_height left + 2
    → Joins left key value right (segment_rebalance (segment_new_node key value left right))
segment_rebalance-Joins key value left right a b p q = rebalance-Joins key value left right a b p q
