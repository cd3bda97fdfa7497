-- ===== src/Index/Tries.antt =====
-- store/memory/indexed.go: the tries of attribute paths, `trieSet` and the functions below it. A nil
-- node is `none`. A node's children are the segment tree of `Index.Attributes`; since the tree holds
-- tries again, the children are a copy of it, and `segments` and `children` are the way there and back.
pub mod Views
pub mod Values
pub mod Writes
pub mod Paths
pub mod Entities
pub mod Laws
pub mod Deletes
mod Tests
use policy_engine.Prelude.{ℕ, Bool, true, false, Option, none, some, List, [], ◌∷◌, if◌then◌else◌}
use policy_engine.Prelude.Text.{Text}
use policy_engine.Model.Data.{EntityRef, Attribute, AttributeKey}
use policy_engine.Index.Avl.{Tree, leaf, node, ◌>>=◌}
use policy_engine.Index.Attributes.{
  entity_get, entity_set, entity_delete, segment_get, segment_set, segment_delete,
}

-- `attributeTrie`, whose attribute is there where `hasValue` is true, and `segmentNode`.
mutual
  pub data Trie : Type 0 where
    trie : Option Attribute → Segments → Trie

  pub data Segments : Type 0 where
    end : Segments
    segment : ℕ → Text → Trie → Segments → Segments → Segments

unfoldable pub segments : Segments → Tree Text Trie
segments end = leaf
segments (segment h key child left right) = node h key child (segments left) (segments right)

unfoldable pub children : Tree Text Trie → Segments
children leaf = end
children (node h key child left right) = segment h key child (children left) (children right)

abbrev pub is_end : Segments → Bool
is_end end = true
is_end (segment h key child left right) = false

-- `node = &attributeTrie{}` where the node is nil.
abbrev pub made : Option Trie → Trie
made none = trie none end
made (some t) = t

abbrev set_here : Trie → Attribute → Option (Option Trie)
set_here (trie v s) a = if is_end s then some (some (trie (some a) s)) else some none

-- `&attributeTrie{…, children: segmentSet(node.children, path[index], updated)}`
abbrev set_child : Option Attribute → Segments → Text → Option Trie → Option (Option Trie)
set_child v s key none = some none
set_child v s key (some updated) =
    segment_set (segments s) key updated >>= (λ t. some (some (trie v (children t))))

abbrev set_below : Trie → Text → (Option Trie → Option (Option Trie)) → Option (Option Trie)
set_below (trie (some b) s) key set_rest = some none
set_below (trie none s) key set_rest =
    set_rest (segment_get (segments s) key) >>= set_child none s key

-- The outer `none` is a nil panic, the inner one a refusal.
unfoldable pub trie_set : List Text → Attribute → Option Trie → Option (Option Trie)
trie_set [] a t = set_here (made t) a
trie_set (key ∷ path) a t = set_below (made t) key (trie_set path a)

abbrev value_of : Option Trie → Option Attribute
value_of none = none
value_of (some (trie v s)) = v

abbrev pub child_of : Text → Option Trie → Option Trie
child_of key none = none
child_of key (some (trie v s)) = segment_get (segments s) key

-- The node that a path leads to, for the loops of `trieGet` and `attributeHasDescendant`.
unfoldable pub walk : List Text → Option Trie → Option Trie
walk [] t = t
walk (key ∷ path) t = walk path (child_of key t)

unfoldable pub trie_get : List Text → Option Trie → Option Attribute
unfolding walk
trie_get path t = value_of (walk path t)

abbrev delete_here : Trie → Option Trie
delete_here (trie v end) = none
delete_here (trie v (segment h key child left right)) =
    some (trie none (segment h key child left right))

abbrev kept_node : Option Attribute → Tree Text Trie → Option Trie
kept_node none leaf = none
kept_node v t = some (trie v (children t))

abbrev updated_children : Segments → Text → Option Trie → Option (Tree Text Trie)
updated_children s key none = segment_delete (segments s) key
updated_children s key (some t) = segment_set (segments s) key t

abbrev delete_child :
    Trie → Text → Option Trie → (Option Trie → Option (Option Trie)) → Option (Option Trie)
delete_child t key none delete_rest = some (some t)
delete_child (trie v s) key (some child) delete_rest =
    delete_rest (some child) >>= updated_children s key >>= (λ t. some (kept_node v t))

abbrev delete_below :
    Option Trie → Text → (Option Trie → Option (Option Trie)) → Option (Option Trie)
delete_below none key delete_rest = some none
delete_below (some (trie v s)) key delete_rest =
    delete_child (trie v s) key (segment_get (segments s) key) delete_rest

abbrev delete_end : Option Trie → Option Trie
delete_end none = none
delete_end (some t) = delete_here t

-- The outer `none` is a nil panic.
unfoldable pub trie_delete : List Text → Option Trie → Option (Option Trie)
trie_delete [] t = some (delete_end t)
trie_delete (key ∷ path) t = delete_below t key (trie_delete path)

abbrev pub AttributeTree : Type 0
AttributeTree = Tree EntityRef Trie

abbrev set_entity : AttributeTree → EntityRef → Option Trie → Option (Option AttributeTree)
set_entity root entity none = some none
set_entity root entity (some t) = entity_set root entity t >>= (λ r. some (some r))

unfoldable pub attribute_set : AttributeTree → Attribute → Option (Option AttributeTree)
unfolding trie_set
attribute_set root a = trie_set a.path a (entity_get root a.entity) >>= set_entity root a.entity

abbrev delete_entity : AttributeTree → EntityRef → Option Trie → Option AttributeTree
delete_entity root entity none = entity_delete root entity
delete_entity root entity (some t) = entity_set root entity t

abbrev delete_held : AttributeTree → AttributeKey → Option Trie → Option AttributeTree
delete_held root key none = some root
delete_held root key (some t) = trie_delete key.path (some t) >>= delete_entity root key.entity

unfoldable pub attribute_delete : AttributeTree → AttributeKey → Option AttributeTree
unfolding trie_delete
attribute_delete root key = delete_held root key (entity_get root key.entity)

unfoldable pub attribute_get : AttributeTree → AttributeKey → Option Attribute
unfolding trie_get
attribute_get root key = trie_get key.path (entity_get root key.entity)

abbrev has_children : Option Trie → Bool
has_children none = false
has_children (some (trie v end)) = false
has_children (some (trie v (segment h key child left right))) = true

unfoldable pub attribute_has_descendant : AttributeTree → AttributeKey → Bool
unfolding walk
attribute_has_descendant root key = has_children (walk key.path (entity_get root key.entity))
