-- ===== src/Index/Avl/Deletes.antt =====
-- `delete` on a balanced search tree: it returns, with a balanced search tree for the map that the
-- specification gives.
use mathlib.Core.List.{append-nil}
use policy_engine.Prelude.{
  ℕ, ◌+◌, ◌≤◌, ◌≡◌, refl, ◌∙◌, Ordering, Option, some, inl, inr, List, ◌∷◌, ◌++◌, arith,
}
use policy_engine.Index.Comparison.{Comparison}
use policy_engine.Index.Avl.{
  Tree, leaf, node, height, new_node, rebalance, least, delete, delete_here, ◌>>=◌,
}
use policy_engine.Index.Avl.Balance.{entries, IsAvl, rebalance-Joins}
use policy_engine.Index.Avl.Entries.{
  erase, Ascending, Splits, split, erase_left, erase_right, Under, Under-trans,
}
use policy_engine.Index.Avl.Updates.{Ordering-cases}

module _ {K V : Type 0} where
  -- `t'` is the balanced tree for `m` that a deletion from `t` may give.
  pub record Shrinks (t : Tree K V) (m : List (K × V)) (t' : Option (Tree K V)) : Type 0 where
    pub result : Tree K V
    pub returned : t' ≡ some result
    pub avl : IsAvl result
    pub kept : entries result ≡ m
    pub lower : height t ≤ height result + 1
    pub upper : height result ≤ height t

  -- The entry that the loop to the left reaches is the first one.
  record First (t : Tree K V) : Type 0 where
    key : K
    value : V
    rest : List (K × V)
    found : least t ≡ some (key, value)
    ahead : entries t ≡ (key, value) ∷ rest

  least-First : (h : ℕ) (k : K) (v : V) (l r : Tree K V) → First (node h k v l r)
  unfolding least
  least-First h k v leaf r = record {
    key = k;
    value = v;
    rest = entries r;
    found = refl;
    ahead = refl;
  }
  least-First h k v (node h' k' v' l' r') r =
      let f = least-First h' k' v' l' r' in
      record {
        key = f.key;
        value = f.value;
        rest = f.rest ++ ((k, v) ∷ entries r);
        found = f.found;
        ahead = rw f.ahead;
      }

  shrink_left :
      (h : ℕ) (k : K) (v : V) (l r : Tree K V) (m : List (K × V)) (l' : Option (Tree K V))
      → IsAvl (node h k v l r)
      → Shrinks l m l'
      → Shrinks
          (node h k v l r)
          (m ++ ((k, v) ∷ entries r))
          (l' >>= (λ left. rebalance (new_node k v left r)))
  unfolding height
  shrink_left h k v l r m l' a g =
      let j = rebalance-Joins k v g.result r g.avl a.4 (omega arith) (omega arith) in
      record {
        result = j.result;
        returned = rw g.returned j.returned;
        avl = j.avl;
        kept = rw (j.kept, g.kept);
        lower = omega arith;
        upper = omega arith;
      }

  -- The root's entry may be another one, as it is where the successor moves up.
  shrink_right :
      (h : ℕ) (k : K) (v : V) (l r : Tree K V) (key : K) (value : V) (m : List (K × V))
      (r' : Option (Tree K V))
      → IsAvl (node h k v l r)
      → Shrinks r m r'
      → Shrinks
          (node h k v l r)
          (entries l ++ ((key, value) ∷ m))
          (r' >>= (λ right. rebalance (new_node key value l right)))
  unfolding height
  shrink_right h k v l r key value m r' a g =
      let j = rebalance-Joins key value l g.result a.3 g.avl (omega arith) (omega arith) in
      record {
        result = j.result;
        returned = rw g.returned j.returned;
        avl = j.avl;
        kept = rw (j.kept, g.kept);
        lower = omega arith;
        upper = omega arith;
      }

module _ {K V : Type 0} (c : Comparison K) where
  erase_here :
      (key k : K) (v : V) (xs ys : List (K × V))
      → c.cmp key k ≡ Ordering.eq
      → Splits c xs k ys
      → erase c key (xs ++ ((k, v) ∷ ys)) ≡ xs ++ ys
  erase_here key k v xs ys same parts =
      let under : Under c key xs = rw (c.eq_sound key k same) parts.under in
      rw (erase_right c key xs ((k, v) ∷ ys) under) (rw (same, erase))

  delete_here-Shrinks :
      (h : ℕ) (k : K) (v : V) (l r : Tree K V)
      → IsAvl (node h k v l r)
      → ((key : K) → Shrinks r (erase c key (entries r)) (delete c key r))
      → Shrinks
          (node h k v l r)
          (entries l ++ entries r)
          (delete_here l r (λ successor. delete c successor r))
  unfolding delete_here
  delete_here-Shrinks h k v leaf r a below = record {
    result = r;
    returned = refl;
    avl = a.4;
    kept = refl;
    lower = omega arith;
    upper = omega arith;
  }
  delete_here-Shrinks h k v (node h' k' v' l' r') leaf a below = record {
    result = node h' k' v' l' r';
    returned = refl;
    avl = a.3;
    kept = rw append-nil;
    lower = omega arith;
    upper = omega arith;
  }
  delete_here-Shrinks h k v (node h' k' v' l' r') (node h₂ k₂ v₂ l₂ r₂) a below =
      let f = least-First h₂ k₂ v₂ l₂ r₂ in
      let left = node h' k' v' l' r' in
      let right = node h₂ k₂ v₂ l₂ r₂ in
      let rest : erase c f.key (entries right) ≡ f.rest = rw (f.ahead, erase, c.self f.key) in
      let s =
        shrink_right h k v left right f.key f.value (erase c f.key (entries right))
          (delete c f.key right) a (below f.key) in
      record {
        result = s.result;
        returned = rw f.found s.returned;
        avl = s.avl;
        kept = s.kept ∙ rw (rest, f.ahead);
        lower = s.lower;
        upper = s.upper;
      }

  -- A deletion from a balanced search tree never fails, whether the key is there or not: the result
  -- is balanced, holds exactly the entries of the specification's erasure, and is lower by one at
  -- most.
  pub delete-Shrinks :
      (key : K) (t : Tree K V)
      → IsAvl t
      → Ascending c (entries t)
      → Shrinks t (erase c key (entries t)) (delete c key t)
  unfolding delete
  delete-Shrinks key leaf a s = record {
    result = leaf;
    returned = refl;
    avl = tt;
    kept = refl;
    lower = omega arith;
    upper = omega arith;
  }
  delete-Shrinks key (node h k v l r) a s =
      let parts = split c (entries l) k v (entries r) s in
      let left = delete-Shrinks key l a.3 parts.left in
      let right = (λ (j : K). delete-Shrinks j r a.4 parts.right) in
      elim (Ordering-cases (c.cmp key k)) [
        | inl below ↦
            rw (below, delete, erase_left c key (entries l) k v (entries r) below)
              (shrink_left h k v l r (erase c key (entries l)) (delete c key l) a left)
        | inr (inl above) ↦
            rw
              (
                above,
                delete,
                erase_right c key (entries l) ((k, v) ∷ entries r)
                    (Under-trans c key k (entries l) above parts.under),
              )
              (rw (above, erase)
                (shrink_right h k v l r k v (erase c key (entries r)) (delete c key r) a
                  (right key)))
        | inr (inr same) ↦
            rw (same, delete)
              (rw (erase_here key k v (entries l) (entries r) same parts)
                (delete_here-Shrinks h k v l r a right))
      ]
