-- ===== src/Index/Avl/Updates.antt =====
-- `set` and `delete` on a balanced search tree: they return, with a balanced search tree for the
-- map that the specification gives.
use policy_engine.Prelude.{
  ℕ, ◌+◌, ◌≤◌, ◌≡◌, refl, sym, Ordering, Option, some, inl, inr, ◌⊎◌, List, ◌∷◌, arith,
}
use policy_engine.Index.Comparison.{Comparison}
use policy_engine.Index.Avl.{Tree, leaf, node, height, new_node, rebalance, set, ◌>>=◌}
use policy_engine.Index.Avl.Balance.{entries, IsAvl, rebalance-Joins}
use policy_engine.Index.Avl.Entries.{
  put, Ascending, Splits, split, put_left, put_right, Under, Under-trans,
}

pub Ordering-cases : (o : Ordering) → (o ≡ Ordering.lt) ⊎ (o ≡ Ordering.gt) ⊎ (o ≡ Ordering.eq)
Ordering-cases Ordering.lt = inl refl
Ordering-cases Ordering.gt = inr (inl refl)
Ordering-cases Ordering.eq = inr (inr refl)

module _ {K V : Type 0} (c : Comparison K) where
  -- `t'` is the balanced tree for `m` that an insertion into `t` may give.
  pub record Grows (t : Tree K V) (m : List (K × V)) (t' : Option (Tree K V)) : Type 0 where
    pub result : Tree K V
    pub returned : t' ≡ some result
    pub avl : IsAvl result
    pub kept : entries result ≡ m
    pub lower : height t ≤ height result
    pub upper : height result ≤ height t + 1

  grow_left :
      (key : K) (value : V) (h : ℕ) (k : K) (v : V) (l r : Tree K V) (l' : Option (Tree K V))
      → IsAvl (node h k v l r)
      → c.cmp key k ≡ Ordering.lt
      → Grows l (put c key value (entries l)) l'
      → Grows
          (node h k v l r)
          (put c key value (entries (node h k v l r)))
          (l' >>= (λ left. rebalance (new_node k v left r)))
  unfolding height
  grow_left key value h k v l r l' a below g =
      let j = rebalance-Joins k v g.result r g.avl a.4 (omega arith) (omega arith) in
      record {
        result = j.result;
        returned = rw g.returned j.returned;
        avl = j.avl;
        kept = rw (j.kept, g.kept) (sym (put_left c key value (entries l) k v (entries r) below));
        lower = omega arith;
        upper = omega arith;
      }

  grow_right :
      (key : K) (value : V) (h : ℕ) (k : K) (v : V) (l r : Tree K V) (r' : Option (Tree K V))
      → IsAvl (node h k v l r)
      → c.cmp key k ≡ Ordering.gt
      → Under c key (entries l)
      → Grows r (put c key value (entries r)) r'
      → Grows
          (node h k v l r)
          (put c key value (entries (node h k v l r)))
          (r' >>= (λ right. rebalance (new_node k v l right)))
  unfolding height
  grow_right key value h k v l r r' a above u g =
      let j = rebalance-Joins k v l g.result a.3 g.avl (omega arith) (omega arith) in
      record {
        result = j.result;
        returned = rw g.returned j.returned;
        avl = j.avl;
        kept =
            rw (j.kept, g.kept, put_right c key value (entries l) ((k, v) ∷ entries r) u)
              (rw (above, put));
        lower = omega arith;
        upper = omega arith;
      }

  put_same :
      (key : K) (value : V) (h : ℕ) (k : K) (v : V) (l r : Tree K V)
      → IsAvl (node h k v l r)
      → c.cmp key k ≡ Ordering.eq
      → Splits c (entries l) k (entries r)
      → Grows
          (node h k v l r)
          (put c key value (entries (node h k v l r)))
          (some (new_node key value l r))
  unfolding height new_node
  put_same key value h k v l r a same parts =
      let under : Under c key (entries l) = rw (c.eq_sound key k same) parts.under in
      record {
        result = new_node key value l r;
        returned = refl;
        avl = (refl, a.1, a.2, a.3, a.4);
        kept = rw (put_right c key value (entries l) ((k, v) ∷ entries r) under) (rw (same, put));
        lower = omega arith;
        upper = omega arith;
      }

  -- An insertion into a balanced search tree never fails: the result is balanced, holds exactly the
  -- entries of the specification's insertion, and is higher by one at most.
  pub set-Grows :
      (key : K) (value : V) (t : Tree K V)
      → IsAvl t
      → Ascending c (entries t)
      → Grows t (put c key value (entries t)) (set c key value t)
  unfolding set height
  set-Grows key value leaf a s = record {
    result = new_node key value leaf leaf;
    returned = refl;
    avl = ground arith;
    kept = refl;
    lower = omega arith;
    upper = omega arith;
  }
  set-Grows key value (node h k v l r) a s =
      let parts = split c (entries l) k v (entries r) s in
      let left = set-Grows key value l a.3 parts.left in
      let right = set-Grows key value r a.4 parts.right in
      elim (Ordering-cases (c.cmp key k)) [
        | inl below ↦
            rw (below, set) (grow_left key value h k v l r (set c key value l) a below left)
        | inr (inl above) ↦
            rw (above, set)
              (grow_right key value h k v l r (set c key value r) a above
                (Under-trans c key k (entries l) above parts.under) right)
        | inr (inr same) ↦ rw (same, set) (put_same key value h k v l r a same parts)
      ]
