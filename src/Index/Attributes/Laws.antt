-- ===== src/Index/Attributes/Laws.antt =====
-- The trees of entities and of segments are maps, for whatever they map to.
use policy_engine.Prelude.{◌≡◌, some, none}
use policy_engine.Prelude.Text.{Text, compare_text}
use policy_engine.Model.Data.{EntityRef}
use policy_engine.Index.Avl.{Tree}
use policy_engine.Index.Avl.Entries.{overlay}
use policy_engine.Index.Avl.Reads.{IsIndex, set-Inserted, delete-Deleted}
use policy_engine.Index.Keys.{compare_entity}
use policy_engine.Index.Keys.Laws.{entity_order, text_order}
use policy_engine.Index.Attributes.{
  entity_get, entity_set, entity_delete, segment_get, segment_set, segment_delete,
}

module _ {Trie : Type 0} where
  -- Reads after a write and after a deletion of an entity: both updates return, the tree stays an
  -- index (ordered and balanced), and only what is read at the entity changes.
  pub entity_get-updates :
      (t : Tree EntityRef Trie) (entity : EntityRef) (trie : Trie)
      → IsIndex entity_order t
      → ((t' : Tree EntityRef Trie) × (entity_set t entity trie ≡ some t')
          × IsIndex entity_order t'
          × ((q : EntityRef)
              → entity_get t' q ≡ overlay (compare_entity q entity) (some trie) (entity_get t q)))
        × ((t' : Tree EntityRef Trie) × (entity_delete t entity ≡ some t')
            × IsIndex entity_order t'
            × ((q : EntityRef)
                → entity_get t' q ≡ overlay (compare_entity q entity) none (entity_get t q)))
  unfolding entity_get entity_set entity_delete
  entity_get-updates t entity trie i =
      let s = set-Inserted entity_order entity trie t i in
      let d = delete-Deleted entity_order entity t i in
      ((s.result, s.returned, s.index, s.found), (d.result, d.returned, d.index, d.found))

  -- Reads after a write and after a deletion of a segment of a trie node: both updates return, the tree
  -- stays an index (ordered and balanced), and only what is read at the segment changes.
  pub segment_get-updates :
      (t : Tree Text Trie) (segment : Text) (child : Trie)
      → IsIndex text_order t
      → ((t' : Tree Text Trie) × (segment_set t segment child ≡ some t')
          × IsIndex text_order t'
          × ((q : Text)
              → segment_get t' q ≡ overlay (compare_text q segment) (some child) (segment_get t q)))
        × ((t' : Tree Text Trie) × (segment_delete t segment ≡ some t')
            × IsIndex text_order t'
            × ((q : Text)
                → segment_get t' q ≡ overlay (compare_text q segment) none (segment_get t q)))
  unfolding segment_get segment_set segment_delete
  segment_get-updates t segment child i =
      let s = set-Inserted text_order segment child t i in
      let d = delete-Deleted text_order segment t i in
      ((s.result, s.returned, s.index, s.found), (d.result, d.returned, d.index, d.found))
