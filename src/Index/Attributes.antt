-- ===== src/Index/Attributes.antt =====
-- The two search trees under the attribute store: entities with their tries, and the segments of
-- one trie node with their subtries. What they map to, a trie, is a parameter here.
pub mod Laws
use policy_engine.Prelude.{Option}
use policy_engine.Prelude.Text.{Text}
use policy_engine.Model.Data.{EntityRef}
use policy_engine.Index.Avl.{Tree, set, delete, get}
use policy_engine.Index.Keys.Laws.{entity_order, text_order}

module _ {Trie : Type 0} where
  unfoldable pub entity_get : Tree EntityRef Trie → EntityRef → Option Trie
  unfolding get
  entity_get root entity = get entity_order entity root

  unfoldable pub entity_set : Tree EntityRef Trie → EntityRef → Trie → Option (Tree EntityRef Trie)
  unfolding set
  entity_set root entity trie = set entity_order entity trie root

  unfoldable pub entity_delete : Tree EntityRef Trie → EntityRef → Option (Tree EntityRef Trie)
  unfolding delete
  entity_delete root entity = delete entity_order entity root

  unfoldable pub segment_get : Tree Text Trie → Text → Option Trie
  unfolding get
  segment_get root segment = get text_order segment root

  unfoldable pub segment_set : Tree Text Trie → Text → Trie → Option (Tree Text Trie)
  unfolding set
  segment_set root segment child = set text_order segment child root

  unfoldable pub segment_delete : Tree Text Trie → Text → Option (Tree Text Trie)
  unfolding delete
  segment_delete root segment = delete text_order segment root
