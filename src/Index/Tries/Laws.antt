-- ===== src/Index/Tries/Laws.antt =====
-- Reads of the attribute store after a write and after a deletion, and what stands below a path.
use policy_engine.Prelude.{
  arith, ◌≡◌, refl, sym, ◌∙◌, Ordering, true, false, List, [], ◌∷◌, ◌++◌, Option, none, some, ◌⊎◌,
  inl, inr, if◌then◌else◌,
}
use policy_engine.Prelude.Text.{Text}
use policy_engine.Model.Data.{Attribute, AttributeKey}
use policy_engine.Index.Avl.{◌>>=◌}
use policy_engine.Index.Attributes.{entity_get}
use policy_engine.Index.Attributes.Laws.{entity_get-updates}
use policy_engine.Index.Keys.{compare_entity}
use policy_engine.Index.Keys.Laws.{entity_order, text_self}
use policy_engine.Index.Tries.{
  Trie, trie, end, AttributeTree, attribute_set, attribute_delete, attribute_get,
  attribute_has_descendant, trie_get, trie_set, walk, set_entity, delete_held, delete_entity,
}
use policy_engine.Index.Tries.Views.{trie_get-none}
use policy_engine.Index.Tries.Values.{IsTrie, Whole, Whole-some, same_path, Conflict}
use policy_engine.Index.Tries.Writes.{Outcome, trie_set-Outcome}
use policy_engine.Index.Tries.Deletes.{is_eq_sound, trie_delete-Erased}
use policy_engine.Index.Tries.Paths.{
  prefix_free, Descendants, has_children-Descendants, Whole-walk, get_append,
}
use policy_engine.Index.Tries.Entities.{
  IsAttributes, key_at, Updates, Updates-entity, IsAttributes-entity,
}

-- The outcomes of `attributeSet`.
pub record Refused (root : AttributeTree) (key : AttributeKey) (r : Option (Option AttributeTree))
    : Type 0 where
  pub refused : r ≡ some none
  pub at : List Text
  pub value : Attribute
  pub found : attribute_get root (key_at key.entity at) ≡ some value
  pub conflict : Conflict key.path at

pub record Written (root : AttributeTree) (key : AttributeKey) (a : Attribute)
    (r : Option (Option AttributeTree)) : Type 0 where
  pub result : AttributeTree
  pub returned : r ≡ some (some result)
  pub kept : IsAttributes result
  pub reads : Updates root key (some a) result
  pub clear :
      (q : List Text) → Conflict key.path q → attribute_get root (key_at key.entity q) ≡ none

pub record Dropped (root : AttributeTree) (key : AttributeKey) (r : Option AttributeTree)
    : Type 0 where
  pub result : AttributeTree
  pub returned : r ≡ some result
  pub kept : IsAttributes result
  pub reads : Updates root key none result

abbrev pub key_of : Attribute → AttributeKey
key_of a = key_at a.entity a.path

same_path_self : (p : List Text) → same_path p p ≡ true
same_path_self [] = refl
same_path_self (x ∷ xs) = rw (text_self x, same_path_self xs) refl

Conflict-differs : (p q : List Text) → Conflict p q → same_path q p ≡ false
Conflict-differs [] [] c = elim c [ ]
Conflict-differs [] (y ∷ ys) c = refl
Conflict-differs (x ∷ xs) [] c = refl
Conflict-differs (x ∷ xs) (y ∷ ys) c = ground (arith, Conflict-differs xs ys c.1)

clear_paths :
    (path q : List Text) (a : Attribute) (o : Option Trie) (t : Trie)
    → IsTrie t
    → ((q : List Text) → trie_get q (some t) ≡ (if same_path q path then some a else trie_get q o))
    → Conflict path q
    → trie_get q o ≡ none
clear_paths path q a o t i h c =
    let self : trie_get path (some t) ≡ some a = h path ∙ rw (same_path_self path) refl in
    let before : trie_get q (some t) ≡ trie_get q o = h q ∙ rw (Conflict-differs path q c) refl in
    sym before ∙ prefix_free path q a (some t) (Whole-some t i) self c

set_entity-Outcome :
    (root : AttributeTree) (a : Attribute) (r : Option (Option Trie))
    → IsAttributes root
    → Outcome (entity_get root a.entity) a.path a r
    → Refused root (key_of a) (r >>= set_entity root a.entity)
      ⊎ Written root (key_of a) a (r >>= set_entity root a.entity)
unfolding Outcome attribute_get
set_entity-Outcome root a r i (inl f) = inl (record {
  refused = rw f.refused refl;
  at = f.at;
  value = f.value;
  found = f.found;
  conflict = f.conflict;
})
set_entity-Outcome root a r i (inr s) =
    let u = (entity_get-updates root a.entity s.result i.index).0 in
    inr (record {
      result = u.0;
      returned = rw (s.returned, u.1) refl;
      kept =
          IsAttributes-entity root u.0 a.entity (some s.result) i (Whole-some s.result s.kept) u.2
            u.3;
      reads = Updates-entity root u.0 (key_of a) (some a) (some s.result) u.3 s.reads;
      clear = λ q. clear_paths a.path q a (entity_get root a.entity) s.result s.kept s.reads;
    })

-- A write of an attribute never fails with a panic. It is refused only where the entity has a value
-- at a proper beginning or a proper continuation of the path. Where it is stored, there was no such
-- value, the store stays well formed, and what is read changes at the key alone, to the attribute.
pub attribute_set_lem :
    (root : AttributeTree) (a : Attribute)
    → IsAttributes root
    → Refused root (key_of a) (attribute_set root a)
      ⊎ Written root (key_of a) a (attribute_set root a)
unfolding attribute_set
attribute_set_lem root a i =
    set_entity-Outcome root a (trie_set a.path a (entity_get root a.entity)) i
      (trie_set-Outcome a.path a (entity_get root a.entity) (i.each a.entity))

delete_entity-Dropped :
    (root : AttributeTree) (key : AttributeKey) (t : Option Trie)
    → IsAttributes root
    → Whole t
    → ((q : List Text)
        → trie_get q t
          ≡ (if same_path q key.path then none else trie_get q (entity_get root key.entity)))
    → Dropped root key (delete_entity root key.entity t)
delete_entity-Dropped root key none i w h =
    let u = (entity_get-updates root key.entity (trie none end) i.index).1 in
    record {
      result = u.0;
      returned = u.1;
      kept = IsAttributes-entity root u.0 key.entity none i w u.2 u.3;
      reads = Updates-entity root u.0 key none none u.3 h;
    }
delete_entity-Dropped root key (some t) i w h =
    let u = (entity_get-updates root key.entity t i.index).0 in
    record {
      result = u.0;
      returned = u.1;
      kept = IsAttributes-entity root u.0 key.entity (some t) i w u.2 u.3;
      reads = Updates-entity root u.0 key none (some t) u.3 h;
    }

not_read :
    (root : AttributeTree) (j key : AttributeKey)
    → entity_get root key.entity ≡ none
    → compare_entity j.entity key.entity ≡ Ordering.eq
    → attribute_get root j ≡ none
unfolding attribute_get
not_read root j key e c = rw (entity_order.eq_sound j.entity key.entity c, e) (trie_get-none j.path)

delete_some-Dropped :
    (root : AttributeTree) (key : AttributeKey) (t : Trie)
    → IsAttributes root
    → entity_get root key.entity ≡ some t
    → Whole (some t)
    → Dropped root key (delete_held root key (some t))
delete_some-Dropped root key t i e w =
    let d = trie_delete-Erased key.path (some t) w in
    rw d.returned (delete_entity-Dropped root key d.result i d.kept (rw e d.reads))

delete_held-Dropped :
    (root : AttributeTree) (key : AttributeKey) (o : Option Trie)
    → IsAttributes root
    → entity_get root key.entity ≡ o
    → Dropped root key (delete_held root key o)
delete_held-Dropped root key none i e = record {
  result = root;
  returned = refl;
  kept = i;
  reads =
      λ j. ground (arith, not_read root j key e, is_eq_sound (compare_entity j.entity key.entity));
}
delete_held-Dropped root key (some t) i e =
    delete_some-Dropped root key t i e (rw (sym e) (i.each key.entity))

-- A deletion of an attribute always returns, and the store stays well formed. What is read changes at
-- the key alone, where nothing is read any more.
pub attribute_delete_lem :
    (root : AttributeTree) (key : AttributeKey)
    → IsAttributes root
    → Dropped root key (attribute_delete root key)
unfolding attribute_delete
attribute_delete_lem root key i = delete_held-Dropped root key (entity_get root key.entity) i refl

-- In a well-formed store of attributes, whether an attribute stands below a key: the answer is that
-- some attribute of the entity is read at a proper continuation of the path, or that none is.
pub attribute_has_descendant_lem :
    (root : AttributeTree) (key : AttributeKey)
    → IsAttributes root
    → ((attribute_has_descendant root key ≡ true)
        × (k : Text) × (q : List Text) × (a : Attribute) × (attribute_get root
              (key_at key.entity (key.path ++ (k ∷ q)))
            ≡ some a))
      ⊎ ((attribute_has_descendant root key ≡ false)
          × ((k : Text) (q : List Text)
              → attribute_get root (key_at key.entity (key.path ++ (k ∷ q))) ≡ none))
unfolding attribute_has_descendant attribute_get Descendants
attribute_has_descendant_lem root key i =
    elim (has_children-Descendants (walk key.path (entity_get root key.entity))
      (Whole-walk key.path (entity_get root key.entity) (i.each key.entity))) [
        | inl (h, b) ↦ inl (
          h,
          b.key,
          b.rest,
          b.value,
          get_append key.path (b.key ∷ b.rest) (entity_get root key.entity) ∙ b.found,
        )
        | inr (h, n) ↦
            inr (h, λ k. λ q. get_append key.path (k ∷ q) (entity_get root key.entity) ∙ n k q)
      ]
