-- ===== src/Index/Tries/Paths.antt =====
-- No value stands above another one, and a node has children exactly if values stand below it.
use policy_engine.Prelude.{
  arith, ◌≡◌, refl, sym, Bool, true, false, List, [], ◌∷◌, ◌++◌, Option, none, some, ◌⊎◌, inl, inr,
}
use policy_engine.Prelude.Text.{Text}
use policy_engine.Model.Data.{Attribute}
use policy_engine.Index.Avl.{get}
use policy_engine.Index.Attributes.{segment_get}
use policy_engine.Index.Tries.{
  Trie, trie, Segments, end, segment, segments, walk, trie_get, child_of, has_children,
}
use policy_engine.Index.Tries.Views.{trie_get-none}
use policy_engine.Index.Tries.Values.{
  IsTrie, valued, inner, Whole, Whole-none, Conflict, Held, IsTrie-Held,
}

Whole-child_node : (k : Text) (t : Trie) → IsTrie t → Whole (child_of k (some t))
unfolding segment_get get segments
Whole-child_node k _ (valued a) = Whole-none
Whole-child_node k _ (inner s i n each) = each k

pub Whole-child_of : (k : Text) (o : Option Trie) → Whole o → Whole (child_of k o)
Whole-child_of k none w = Whole-none
Whole-child_of k (some t) w = Whole-child_node k t (w t refl)

pub Whole-walk : (p : List Text) (o : Option Trie) → Whole o → Whole (walk p o)
unfolding walk
Whole-walk [] o w = w
Whole-walk (k ∷ p) o w = Whole-walk p (child_of k o) (Whole-child_of k o w)

pub get_append : (p q : List Text) (o : Option Trie) → trie_get (p ++ q) o ≡ trie_get q (walk p o)
unfolding trie_get walk
get_append [] q o = refl
get_append (k ∷ p) q o = get_append p q (child_of k o)

value_above :
    (k : Text) (q : List Text) (a : Attribute) (t : Trie)
    → IsTrie t
    → trie_get [] (some t) ≡ some a
    → trie_get (k ∷ q) (some t) ≡ none
unfolding trie_get walk segment_get get segments
value_above k q a _ (valued b) h = trie_get-none q
value_above k q a _ (inner s i n each) h = ground arith

value_below :
    (k : Text) (q : List Text) (a : Attribute) (t : Trie)
    → IsTrie t
    → trie_get (k ∷ q) (some t) ≡ some a
    → trie_get [] (some t) ≡ none
unfolding trie_get walk segment_get get segments
value_below k q a _ (valued b) h = ground (arith, trie_get-none q)
value_below k q a _ (inner s i n each) h = refl

-- Where a value is, none is at a proper beginning or a proper continuation of its path.
pub prefix_free :
    (p q : List Text) (a : Attribute) (o : Option Trie)
    → Whole o
    → trie_get p o ≡ some a
    → Conflict p q
    → trie_get q o ≡ none
unfolding trie_get walk
prefix_free [] [] a o w h c = elim c [ ]
prefix_free [] (k ∷ q) a none w h c = trie_get-none (k ∷ q)
prefix_free [] (k ∷ q) a (some t) w h c = value_above k q a t (w t refl) h
prefix_free (k ∷ p) [] a none w h c = refl
prefix_free (k ∷ p) [] a (some t) w h c = value_below k p a t (w t refl) h
prefix_free (k ∷ p) (j ∷ q) a o w h c =
    rw (sym c.0) (prefix_free p q a (child_of k o) (Whole-child_of k o w) h c.1)

-- A value below a node.
pub record Below (o : Option Trie) : Type 0 where
  pub key : Text
  pub rest : List Text
  pub value : Attribute
  pub found : trie_get (key ∷ rest) o ≡ some value

unfoldable pub Descendants : Option Trie → Bool → Type 0
Descendants o b =
    ((b ≡ true) × Below o)
    ⊎ ((b ≡ false) × ((k : Text) (q : List Text) → trie_get (k ∷ q) o ≡ none))

Below-inner :
    (s : Segments) (q : List Text) (a : Attribute)
    → trie_get q (some (trie none s)) ≡ some a
    → Below (some (trie none s))
unfolding trie_get walk
Below-inner s [] a h = ground arith
Below-inner s (k ∷ q) a h = record { key = k; rest = q; value = a; found = h }

Held-Below : (s : Segments) → Held (trie none s) → Below (some (trie none s))
Held-Below s h = Below-inner s h.at h.value h.found

node-Descendants : (t : Trie) → IsTrie t → Descendants (some t) (has_children (some t))
unfolding Descendants trie_get
node-Descendants _ (valued a) =
    inr (refl, λ k. λ q. value_above k q a (trie (some a) end) (valued a) refl)
node-Descendants _ (inner end i n each) = ground arith
node-Descendants _ (inner (segment h k t l r) i n each) = inl (
  refl,
  Held-Below (segment h k t l r)
      (IsTrie-Held (trie none (segment h k t l r)) (inner (segment h k t l r) i n each)),
)

-- Whether a node has children.
pub has_children-Descendants : (o : Option Trie) → Whole o → Descendants o (has_children o)
unfolding Descendants
has_children-Descendants none w = inr (refl, λ k. λ q. trie_get-none (k ∷ q))
has_children-Descendants (some t) w = node-Descendants t (w t refl)
