-- ===== src/Index/Tries/Tests.antt =====
-- The attribute store at work on an entity with one attribute.
use policy_engine.Prelude.{arith, ◌≡◌, refl, sym, true, false, List, [], ◌∷◌, none, some, ◌⊎◌}
use policy_engine.Prelude.Int.{pos}
use policy_engine.Prelude.Text.{Text, codes, compare_text}
use policy_engine.Model.Data.{EntityRef, Attribute, kind_boolean}
use policy_engine.Index.Comparison.{Comparison}
use policy_engine.Index.Avl.{leaf, node, height, set, delete, get}
use policy_engine.Index.Attributes.{
  entity_get, segment_get, segment_set, entity_set, segment_delete, entity_delete,
}
use policy_engine.Index.Keys.{compare_entity}
use policy_engine.Index.Keys.Laws.{entity_order, text_order}
use policy_engine.Index.Tries.{
  Trie, trie, end, segment, segments, children, AttributeTree, attribute_set, attribute_delete,
  attribute_get, attribute_has_descendant, trie_set, trie_get, trie_delete, walk,
}
use policy_engine.Index.Tries.Values.{IsTrie, valued, inner}
use policy_engine.Index.Tries.Entities.{IsAttributes, key_at}
use policy_engine.Index.Tries.Laws.{
  Refused, Written, Dropped, key_of, attribute_set_lem, attribute_delete_lem,
  attribute_has_descendant_lem,
}

program : Unit {0}
unfolding height compare_entity compare_text segments children set delete get entity_get segment_get
    segment_set segment_delete entity_set entity_delete trie_set trie_get trie_delete walk
    attribute_set attribute_delete attribute_get attribute_has_descendant
program = tt

abbrev document : EntityRef
document = record { type_name = codes "document"; id = codes "d1" }

abbrev attribute : List Text → Attribute
attribute path = record {
  entity = document;
  path = path;
  value = record { kind = kind_boolean; text = []; integer = pos 0; boolean = true };
}

abbrev secret : Attribute
secret = attribute (codes "a" ∷ codes "b" ∷ [])

abbrev below : Trie
below = trie none (segment 1 (codes "b") (trie (some secret) end) end end)

abbrev held : Trie
held = trie none (segment 1 (codes "a") below end end)

abbrev attributes : AttributeTree
attributes = node 1 document held leaf leaf

-- What a tree of one node gives.
from_one :
    {K : Type 0} (c : Comparison K) (k j : K) (t u : Trie)
    → get c j (node 1 k t leaf leaf) ≡ some u
    → t ≡ u
unfolding get
from_one c k j t u h = ground arith

from_one-IsTrie :
    {K : Type 0} (c : Comparison K) (k j : K) (t u : Trie)
    → IsTrie t
    → get c j (node 1 k t leaf leaf) ≡ some u
    → IsTrie u
from_one-IsTrie c k j t u i h = rw (sym (from_one c k j t u h)) i

below-IsTrie : IsTrie below
unfolding program
below-IsTrie =
    inner (segment 1 (codes "b") (trie (some secret) end) end end)
      (record { avl = ground arith; ascending = ground arith }) refl
      (λ k.
        λ t. from_one-IsTrie text_order (codes "b") k (trie (some secret) end) t (valued secret))

held-IsTrie : IsTrie held
unfolding program
held-IsTrie =
    inner (segment 1 (codes "a") below end end)
      (record { avl = ground arith; ascending = ground arith }) refl
      (λ k. λ t. from_one-IsTrie text_order (codes "a") k below t below-IsTrie)

attributes-IsAttributes : IsAttributes attributes
unfolding program
attributes-IsAttributes = record {
  index = record { avl = ground arith; ascending = ground arith };
  each = λ e. λ t. from_one-IsTrie entity_order document e held t held-IsTrie;
}

-- A write above the value and one below it are refused, one beside it is stored.
writes :
    (attribute_set attributes (attribute (codes "a" ∷ [])) ≡ some none)
    × (attribute_set attributes (attribute (codes "a" ∷ codes "b" ∷ codes "c" ∷ [])) ≡ some none)
    × (attribute_delete attributes (key_of secret) ≡ some leaf)
unfolding program
writes = (refl, refl, refl)

attribute_set_lem_example :
    Refused attributes
      (key_of (attribute (codes "c" ∷ [])))
      (attribute_set attributes (attribute (codes "c" ∷ [])))
    ⊎ Written attributes
        (key_of (attribute (codes "c" ∷ [])))
        (attribute (codes "c" ∷ []))
        (attribute_set attributes (attribute (codes "c" ∷ [])))
attribute_set_lem_example =
    attribute_set_lem attributes (attribute (codes "c" ∷ [])) attributes-IsAttributes

attribute_delete_lem_example :
    Dropped attributes (key_of secret) (attribute_delete attributes (key_of secret))
attribute_delete_lem_example =
    attribute_delete_lem attributes (key_of secret) attributes-IsAttributes

attribute_has_descendant_lem_example :
    ((attribute_has_descendant attributes (key_at document (codes "a" ∷ [])) ≡ true)
      × (k : Text) × (q : List Text) × (a : Attribute) × (attribute_get attributes
            (key_at document (codes "a" ∷ k ∷ q))
          ≡ some a))
    ⊎ ((attribute_has_descendant attributes (key_at document (codes "a" ∷ [])) ≡ false)
        × ((k : Text) (q : List Text)
            → attribute_get attributes (key_at document (codes "a" ∷ k ∷ q)) ≡ none))
attribute_has_descendant_lem_example =
    attribute_has_descendant_lem attributes (key_at document (codes "a" ∷ []))
      attributes-IsAttributes
