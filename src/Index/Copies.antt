-- ===== src/Index/Copies.antt =====
-- The helpers of indexed.go that it writes out once more for the trees of tuples, of entities and of
-- path segments: each is the one of `Index.Avl` at that tree's keys and values.
pub mod Laws
use policy_engine.Prelude.{ℕ, Option}
use policy_engine.Prelude.Int.{ℤ}
use policy_engine.Prelude.Text.{Text}
use policy_engine.Model.Data.{EntityRef, Tuple, RelationshipTuple}
use policy_engine.Index.Avl.{
  Tree, height, new_node, balance, rotate_right, rotate_left, rebalance, least,
}

abbrev pub tuple_height : Tree Tuple RelationshipTuple → ℕ
tuple_height = height

abbrev pub tuple_new_node :
    Tuple
    → RelationshipTuple
    → Tree Tuple RelationshipTuple
    → Tree Tuple RelationshipTuple
    → Tree Tuple RelationshipTuple
tuple_new_node = new_node

abbrev pub tuple_balance : Tree Tuple RelationshipTuple → Option ℤ
tuple_balance = balance

abbrev pub tuple_rotate_right : Tree Tuple RelationshipTuple → Option (Tree Tuple RelationshipTuple)
tuple_rotate_right = rotate_right

abbrev pub tuple_rotate_left : Tree Tuple RelationshipTuple → Option (Tree Tuple RelationshipTuple)
tuple_rotate_left = rotate_left

abbrev pub tuple_rebalance : Tree Tuple RelationshipTuple → Option (Tree Tuple RelationshipTuple)
tuple_rebalance = rebalance

-- A trie is a parameter.
module _ {Trie : Type 0} where
  abbrev pub entity_height : Tree EntityRef Trie → ℕ
  entity_height = height

  abbrev pub entity_new_node :
      EntityRef → Trie → Tree EntityRef Trie → Tree EntityRef Trie → Tree EntityRef Trie
  entity_new_node = new_node

  abbrev pub entity_balance : Tree EntityRef Trie → Option ℤ
  entity_balance = balance

  abbrev pub entity_rotate_right : Tree EntityRef Trie → Option (Tree EntityRef Trie)
  entity_rotate_right = rotate_right

  abbrev pub entity_rotate_left : Tree EntityRef Trie → Option (Tree EntityRef Trie)
  entity_rotate_left = rotate_left

  abbrev pub entity_rebalance : Tree EntityRef Trie → Option (Tree EntityRef Trie)
  entity_rebalance = rebalance

  abbrev pub entity_least : Tree EntityRef Trie → Option (EntityRef × Trie)
  entity_least = least

  abbrev pub segment_height : Tree Text Trie → ℕ
  segment_height = height

  abbrev pub segment_new_node : Text → Trie → Tree Text Trie → Tree Text Trie → Tree Text Trie
  segment_new_node = new_node

  abbrev pub segment_balance : Tree Text Trie → Option ℤ
  segment_balance = balance

  abbrev pub segment_rotate_right : Tree Text Trie → Option (Tree Text Trie)
  segment_rotate_right = rotate_right

  abbrev pub segment_rotate_left : Tree Text Trie → Option (Tree Text Trie)
  segment_rotate_left = rotate_left

  abbrev pub segment_rebalance : Tree Text Trie → Option (Tree Text Trie)
  segment_rebalance = rebalance

  abbrev pub segment_least : Tree Text Trie → Option (Text × Trie)
  segment_least = least
