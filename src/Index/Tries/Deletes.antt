-- ===== src/Index/Tries/Deletes.antt =====
-- Deletions from a trie: they drop the value at the path and no other.
use policy_engine.Prelude.{
  arith, ◌≡◌, refl, sym, ◌∙◌, Ordering, true, List, [], ◌∷◌, Option, none, some, if◌then◌else◌,
}
use policy_engine.Prelude.Text.{Text, compare_text}
use policy_engine.Model.Data.{Attribute}
use policy_engine.Index.Avl.{Tree, leaf, node, get, ◌>>=◌}
use policy_engine.Index.Avl.Entries.{overlay}
use policy_engine.Index.Avl.Reads.{IsIndex}
use policy_engine.Index.Attributes.{segment_get}
use policy_engine.Index.Attributes.Laws.{segment_get-updates}
use policy_engine.Index.Keys.Laws.{text_order}
use policy_engine.Index.Tries.{
  Trie, trie, Segments, end, segment, segments, children, walk, trie_get, trie_delete, kept_node,
  updated_children, delete_child,
}
use policy_engine.Index.Tries.Views.{segments-children, trie_get-none}
use policy_engine.Index.Tries.Values.{
  IsTrie, valued, inner, Whole, Whole-some, Whole-none, same_path, is_eq, Children, IsTrie-child,
  read_below, get_made,
}

pub record Erased (o : Option Trie) (path : List Text) (r : Option (Option Trie)) : Type 0 where
  pub result : Option Trie
  pub returned : r ≡ some result
  pub kept : Whole result
  pub reads :
      (q : List Text) → trie_get q result ≡ (if same_path q path then none else trie_get q o)

pub is_eq_sound : (o : Ordering) → is_eq o ≡ true → o ≡ Ordering.eq
is_eq_sound Ordering.lt h = ground arith
is_eq_sound Ordering.eq h = refl
is_eq_sound Ordering.gt h = ground arith

pub same_path_sound : (q p : List Text) → same_path q p ≡ true → q ≡ p
same_path_sound [] [] h = refl
same_path_sound [] (y ∷ ys) h = ground arith
same_path_sound (x ∷ xs) [] h = ground arith
same_path_sound (x ∷ xs) (y ∷ ys) h =
    ground (arith, is_eq_sound (compare_text x y), text_order.eq_sound x y, same_path_sound xs ys)

absent :
    (q path : List Text) (o : Option Trie)
    → trie_get path o ≡ none
    → trie_get q o ≡ (if same_path q path then none else trie_get q o)
absent q path o h = ground (arith, same_path_sound q path)

-- A deletion that changes nothing.
unchanged :
    (o : Option Trie) (path : List Text) → Whole o → trie_get path o ≡ none → Erased o path (some o)
unchanged o path w h = record {
  result = o;
  returned = refl;
  kept = w;
  reads = λ q. absent q path o h;
}

Whole-kept_node :
    (s : Segments) (k : Text) (new : Option Trie) (tr : Tree Text Trie)
    → Children s
    → Whole new
    → IsIndex text_order tr
    → ((j : Text) → segment_get tr j ≡ overlay (compare_text j k) new (segment_get (segments s) j))
    → Whole (kept_node none tr)
unfolding children
Whole-kept_node s k new leaf c w i f = Whole-none
Whole-kept_node s k new (node h j v l r) c w i f =
    Whole-some (trie none (children (node h j v l r))) (
      inner (children (node h j v l r)) (rw (segments-children (node h j v l r)) i) refl (λ q. λ t.
        λ e.
          IsTrie-child s k q new t c w
            (sym (f q) ∙ rw (sym (segments-children (node h j v l r))) e)))

get-kept_node :
    (tr : Tree Text Trie) (q : List Text)
    → trie_get q (kept_node none tr) ≡ trie_get q (some (trie none (children tr)))
unfolding children
get-kept_node leaf q = sym (get_made q)
get-kept_node (node h k v l r) q = refl

-- What deleting below a child gives, by the tree with that child replaced or removed.
kept_node-Erased :
    (s : Segments) (k : Text) (path : List Text) (new : Option Trie) (tr : Tree Text Trie)
    (r : Option (Option Trie))
    → Children s
    → Whole new
    → IsIndex text_order tr
    → ((j : Text) → segment_get tr j ≡ overlay (compare_text j k) new (segment_get (segments s) j))
    → ((q : List Text)
        → trie_get q new
          ≡ (if same_path q path then none else trie_get q (segment_get (segments s) k)))
    → r ≡ some (kept_node none tr)
    → Erased (some (trie none s)) (k ∷ path) r
kept_node-Erased s k path new tr r c w i f h e = record {
  result = kept_node none tr;
  returned = e;
  kept = Whole-kept_node s k new tr c w i f;
  reads = λ q. get-kept_node tr q ∙ read_below s tr k path none new q f h;
}

updated_children-Erased :
    (s : Segments) (k : Text) (path : List Text) (new : Option Trie)
    → Children s
    → Whole new
    → ((q : List Text)
        → trie_get q new
          ≡ (if same_path q path then none else trie_get q (segment_get (segments s) k)))
    → Erased
        (some (trie none s))
        (k ∷ path)
        (updated_children s k new >>= (λ t. some (kept_node none t)))
updated_children-Erased s k path none c w h =
    let u = (segment_get-updates (segments s) k (trie none end) c.index).1 in
    kept_node-Erased s k path none u.0
      (updated_children s k none >>= (λ t. some (kept_node none t))) c w u.2 u.3 h (rw u.1 refl)
updated_children-Erased s k path (some t) c w h =
    let u = (segment_get-updates (segments s) k t c.index).0 in
    kept_node-Erased s k path (some t) u.0
      (updated_children s k (some t) >>= (λ t. some (kept_node none t))) c w u.2 u.3 h (rw u.1 refl)

delete_child-Erased :
    (s : Segments) (k : Text) (path : List Text) (child : Option Trie)
    → Children s
    → Whole (some (trie none s))
    → segment_get (segments s) k ≡ child
    → Erased child path (trie_delete path child)
    → Erased (some (trie none s)) (k ∷ path) (delete_child (trie none s) k child (trie_delete path))
unfolding trie_get walk
delete_child-Erased s k path none c w e r =
    unchanged (some (trie none s)) (k ∷ path) w (rw e (trie_get-none path))
delete_child-Erased s k path (some t) c w e r =
    rw r.returned (updated_children-Erased s k path r.result c r.kept (rw e r.reads))

end_values :
    (a : Attribute) (k : Text) (q : List Text) → trie_get (k ∷ q) (some (trie (some a) end)) ≡ none
unfolding trie_get walk segment_get get segments
end_values a k q = trie_get-none q

root_value :
    (a : Attribute) (q : List Text)
    → trie_get q none ≡ (if same_path q [] then none else trie_get q (some (trie (some a) end)))
unfolding trie_get walk segment_get get segments
root_value a [] = refl
root_value a (k ∷ q) = refl

root_empty :
    (s : Segments) (q : List Text)
    → trie_get q (some (trie none s))
      ≡ (if same_path q [] then none else trie_get q (some (trie none s)))
unfolding trie_get walk
root_empty s [] = refl
root_empty s (k ∷ q) = refl

delete_end-Erased : (t : Trie) → IsTrie t → Erased (some t) [] (trie_delete [] (some t))
unfolding trie_delete
delete_end-Erased _ (valued a) = record {
  result = none;
  returned = refl;
  kept = Whole-none;
  reads = root_value a;
}
delete_end-Erased _ (inner (segment h k t l r) i n each) = record {
  result = some (trie none (segment h k t l r));
  returned = refl;
  kept = Whole-some (trie none (segment h k t l r)) (inner (segment h k t l r) i n each);
  reads = root_empty (segment h k t l r);
}
delete_end-Erased _ (inner end i n each) = ground arith

delete_node-Erased :
    (k : Text) (path : List Text) (t : Trie)
    → ((o : Option Trie) → Whole o → Erased o path (trie_delete path o))
    → IsTrie t
    → Erased (some t) (k ∷ path) (trie_delete (k ∷ path) (some t))
unfolding trie_delete trie_get walk segment_get get segments
delete_node-Erased k path _ rec (valued a) =
    unchanged (some (trie (some a) end)) (k ∷ path) (Whole-some (trie (some a) end) (valued a))
      (end_values a k path)
delete_node-Erased k path _ rec (inner s i n each) =
    delete_child-Erased s k path (segment_get (segments s) k) (record { index = i; each = each })
      (Whole-some (trie none s) (inner s i n each)) refl (rec (segment_get (segments s) k) (each k))

-- A deletion from a well-formed trie returns a well-formed one, or nil, and drops the value at the
-- path alone.
pub trie_delete-Erased :
    (path : List Text) (o : Option Trie) → Whole o → Erased o path (trie_delete path o)
unfolding trie_delete
trie_delete-Erased [] none w = unchanged none [] w (trie_get-none [])
trie_delete-Erased [] (some t) w = delete_end-Erased t (w t refl)
trie_delete-Erased (k ∷ path) none w = unchanged none (k ∷ path) w (trie_get-none (k ∷ path))
trie_delete-Erased (k ∷ path) (some t) w =
    delete_node-Erased k path t (trie_delete-Erased path) (w t refl)
