-- ===== src/Index/Tries/Values.antt =====
-- Well-formed tries and what is read from them.
use policy_engine.Prelude.{
  arith, ◌≡◌, refl, sym, Ordering, Bool, true, false, ◌&&◌, List, [], ◌∷◌, Option, none, some, ◌⊎◌,
  inl, inr, if◌then◌else◌,
}
use policy_engine.Prelude.Text.{Text, compare_text}
use policy_engine.Model.Data.{Attribute}
use policy_engine.Index.Avl.{Tree, leaf, node, get}
use policy_engine.Index.Avl.Entries.{overlay}
use policy_engine.Index.Avl.Reads.{IsIndex}
use policy_engine.Index.Attributes.{segment_get}
use policy_engine.Index.Keys.Laws.{text_order, text_self}
use policy_engine.Index.Tries.{
  Trie, trie, Segments, end, segment, segments, children, is_end, walk, trie_get,
}
use policy_engine.Index.Tries.Views.{segments-children}

-- An attribute stands at a leaf, and an inner node has children that are such nodes again.
pub data IsTrie : Trie → Type 0 where
  valued : (a : Attribute) → IsTrie (trie (some a) end)
  inner :
      (s : Segments)
      → IsIndex text_order (segments s)
      → is_end s ≡ false
      → ((k : Text) (t : Trie) → segment_get (segments s) k ≡ some t → IsTrie t)
      → IsTrie (trie none s)

-- A node that may be nil.
abbrev pub Whole : Option Trie → Type 0
Whole o = (t : Trie) → o ≡ some t → IsTrie t

abbrev pub is_eq : Ordering → Bool
is_eq Ordering.eq = true
is_eq Ordering.lt = false
is_eq Ordering.gt = false

abbrev pub same_path : List Text → List Text → Bool
same_path [] [] = true
same_path [] (y ∷ ys) = false
same_path (x ∷ xs) [] = false
same_path (x ∷ xs) (y ∷ ys) = is_eq (compare_text x y) && same_path xs ys

-- One path is a proper beginning of the other.
abbrev pub Conflict : List Text → List Text → Type 0
Conflict [] [] = ⊥
Conflict [] (y ∷ ys) = Unit
Conflict (x ∷ xs) [] = Unit
Conflict (x ∷ xs) (y ∷ ys) = (x ≡ y) × Conflict xs ys

-- A trie node holds a value.
pub record Held (t : Trie) : Type 0 where
  pub at : List Text
  pub value : Attribute
  pub found : trie_get at (some t) ≡ some value

pub first_child :
    (s : Segments)
    → is_end s ≡ false
    → (k : Text) × (t : Trie) × (segment_get (segments s) k ≡ some t)
unfolding segments segment_get get
first_child end h = ground arith
first_child (segment h k t l r) e = (k, t, rw (text_self k, segment_get, get) refl)

pub Held-child :
    (k : Text) (s : Segments) (t : Trie)
    → segment_get (segments s) k ≡ some t
    → Held t
    → Held (trie none s)
unfolding trie_get walk
Held-child k s t e h = record { at = k ∷ h.at; value = h.value; found = rw e h.found }

-- No trie is without a value.
pub IsTrie-Held : (t : Trie) → IsTrie t → Held t
unfolding trie_get walk
IsTrie-Held _ (valued a) = record { at = []; value = a; found = refl }
IsTrie-Held _ (inner s i n each) =
    let c = first_child s n in Held-child c.0 s c.1 c.2 (IsTrie-Held c.1 (each c.0 c.1 c.2))

-- Children that are tries, in an index.
pub record Children (s : Segments) : Type 0 where
  pub index : IsIndex text_order (segments s)
  pub each : (k : Text) (t : Trie) → segment_get (segments s) k ≡ some t → IsTrie t

pub not_end :
    (tr : Tree Text Trie) (k : Text) (t : Trie)
    → segment_get tr k ≡ some t
    → is_end (children tr) ≡ false
unfolding segment_get get children
not_end leaf k t h = ground arith
not_end (node h' j v l r) k t h = refl

pub overlay_self : (k : Text) (new old : Option Trie) → overlay (compare_text k k) new old ≡ new
unfolding overlay
overlay_self k new old = rw (text_self k) refl

-- A child after an update of one child is the new one or an old one.
each_child :
    (o : Ordering) (new old : Option Trie) (t : Trie)
    → overlay o new old ≡ some t
    → (new ≡ some t) ⊎ (old ≡ some t)
unfolding overlay
each_child Ordering.lt new old t h = inr h
each_child Ordering.eq new old t h = inl h
each_child Ordering.gt new old t h = inr h

pub Whole-some : (t : Trie) → IsTrie t → Whole (some t)
Whole-some t i u e = let same : t ≡ u = ground arith in rw (sym same) i

pub Whole-none : Whole none
Whole-none t e = ground arith

pub IsTrie-child :
    (s : Segments) (k j : Text) (new : Option Trie) (t : Trie)
    → Children s
    → Whole new
    → overlay (compare_text j k) new (segment_get (segments s) j) ≡ some t
    → IsTrie t
IsTrie-child s k j new t c w h =
    elim (each_child (compare_text j k) new (segment_get (segments s) j) t h) [
      | inl e ↦ w t e
      | inr e ↦ c.each j t e
    ]

-- The value that is read once a child was replaced or removed.
read_child :
    (k j : Text) (p path : List Text) (v : Option Attribute) (new old other : Option Trie)
    (o : Ordering)
    → compare_text j k ≡ o
    → ((q : List Text) → trie_get q new ≡ (if same_path q path then v else trie_get q old))
    → (j ≡ k → other ≡ old)
    → trie_get p (overlay o new other)
      ≡ (if is_eq o && same_path p path then v else trie_get p other)
unfolding overlay
read_child k j p path v new old other Ordering.lt c h e = refl
read_child k j p path v new old other Ordering.gt c h e = refl
read_child k j p path v new old other Ordering.eq c h e = rw (e (text_order.eq_sound j k c)) (h p)

pub read_below :
    (s : Segments) (tr : Tree Text Trie) (k : Text) (path : List Text) (v : Option Attribute)
    (new : Option Trie) (q : List Text)
    → ((j : Text) → segment_get tr j ≡ overlay (compare_text j k) new (segment_get (segments s) j))
    → ((q : List Text)
        → trie_get q new
          ≡ (if same_path q path then v else trie_get q (segment_get (segments s) k)))
    → trie_get q (some (trie none (children tr)))
      ≡ (if same_path q (k ∷ path) then v else trie_get q (some (trie none s)))
unfolding trie_get walk
read_below s tr k path v new [] f h = refl
read_below s tr k path v new (j ∷ p) f h =
    rw (segments-children tr, f j)
      (read_child k j p path v new (segment_get (segments s) k) (segment_get (segments s) j)
        (compare_text j k) refl h (λ e. rw e refl))

pub Children-end : Children end
unfolding segments segment_get get
Children-end = record {
  index = record { avl = ground arith; ascending = ground arith };
  each = λ k. λ t. λ h. ground arith;
}

-- A nil node reads as an empty one.
pub get_made : (q : List Text) → trie_get q (some (trie none end)) ≡ trie_get q none
unfolding trie_get walk segments segment_get get
get_made [] = refl
get_made (k ∷ q) = refl
