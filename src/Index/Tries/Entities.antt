-- ===== src/Index/Tries/Entities.antt =====
-- The attribute store as an index of well-formed tries, and how updating one entity changes its reads.
use policy_engine.Prelude.{◌≡◌, refl, Ordering, Bool, ◌&&◌, List, Option, if◌then◌else◌}
use policy_engine.Prelude.Text.{Text}
use policy_engine.Model.Data.{EntityRef, Attribute, AttributeKey}
use policy_engine.Index.Avl.Entries.{overlay}
use policy_engine.Index.Avl.Reads.{IsIndex}
use policy_engine.Index.Attributes.{entity_get}
use policy_engine.Index.Keys.{compare_entity}
use policy_engine.Index.Keys.Laws.{entity_order}
use policy_engine.Index.Tries.{Trie, AttributeTree, attribute_get, trie_get}
use policy_engine.Index.Tries.Values.{Whole, same_path, is_eq}

-- An index of entities whose tries are well formed.
pub record IsAttributes (root : AttributeTree) : Type 0 where
  pub index : IsIndex entity_order root
  pub each : (e : EntityRef) → Whole (entity_get root e)

abbrev pub key_at : EntityRef → List Text → AttributeKey
key_at e p = record { entity = e; path = p }

abbrev pub same_key : AttributeKey → AttributeKey → Bool
same_key j k = is_eq (compare_entity j.entity k.entity) && same_path j.path k.path

-- `new` is `old` with `v` read at a key.
abbrev pub Updates : AttributeTree → AttributeKey → Option Attribute → AttributeTree → Type 0
Updates old key v new =
    (j : AttributeKey) → attribute_get new j ≡ (if same_key j key then v else attribute_get old j)

read_entity :
    (j : AttributeKey) (key : AttributeKey) (v : Option Attribute) (new old other : Option Trie)
    (o : Ordering)
    → compare_entity j.entity key.entity ≡ o
    → ((q : List Text) → trie_get q new ≡ (if same_path q key.path then v else trie_get q old))
    → (j.entity ≡ key.entity → other ≡ old)
    → trie_get j.path (overlay o new other)
      ≡ (if is_eq o && same_path j.path key.path then v else trie_get j.path other)
unfolding overlay
read_entity j key v new old other Ordering.lt c h e = refl
read_entity j key v new old other Ordering.gt c h e = refl
read_entity j key v new old other Ordering.eq c h e =
    rw (e (entity_order.eq_sound j.entity key.entity c)) (h j.path)

pub Updates-entity :
    (old new : AttributeTree) (key : AttributeKey) (v : Option Attribute) (t : Option Trie)
    → ((e : EntityRef)
        → entity_get new e ≡ overlay (compare_entity e key.entity) t (entity_get old e))
    → ((q : List Text)
        → trie_get q t
          ≡ (if same_path q key.path then v else trie_get q (entity_get old key.entity)))
    → Updates old key v new
unfolding attribute_get
Updates-entity old new key v t f h j = rw (f j.entity) (
    read_entity j key v t (entity_get old key.entity) (entity_get old j.entity)
      (compare_entity j.entity key.entity) refl h (λ e. rw e refl))

overlay-Whole :
    (o : Ordering) (new old : Option Trie) → Whole new → Whole old → Whole (overlay o new old)
unfolding overlay
overlay-Whole Ordering.lt new old w v = v
overlay-Whole Ordering.eq new old w v = w
overlay-Whole Ordering.gt new old w v = v

pub IsAttributes-entity :
    (old new : AttributeTree) (entity : EntityRef) (t : Option Trie)
    → IsAttributes old
    → Whole t
    → IsIndex entity_order new
    → ((e : EntityRef) → entity_get new e ≡ overlay (compare_entity e entity) t (entity_get old e))
    → IsAttributes new
IsAttributes-entity old new entity t a w i f = record {
  index = i;
  each = λ e. rw (f e) (overlay-Whole (compare_entity e entity) t (entity_get old e) w (a.each e));
}
