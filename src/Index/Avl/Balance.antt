-- ===== src/Index/Avl/Balance.antt =====
-- A tree is balanced when each stored height is right and the children's heights differ by one at
-- most. Rebalancing after one insertion or deletion restores this, and keeps the entries.
use policy_engine.Prelude.{
  ◌+◌, ◌≤◌, ◌≡◌, refl, max, Option, some, ◌⊎◌, inl, inr, List, [], ◌∷◌, ◌++◌, arith,
}
use policy_engine.Prelude.Int.{
  above_one, not_above_one, below_one, not_below_one, above_zero, not_above_zero, below_zero,
  not_below_zero,
}
use mathlib.Core.List.{append_assoc}
use native.Mathlib.Decide.{dec_lt}
use policy_engine.Index.Avl.{Tree, leaf, node, height, new_node, rebalance}

module _ {K V : Type 0} where
  -- The entries, from left to right.
  abbrev pub entries : Tree K V → List (K × V)
  entries leaf = []
  entries (node h key value left right) = entries left ++ ((key, value) ∷ entries right)

  abbrev pub IsAvl : Tree K V → Type 0
  IsAvl leaf = Unit {0}
  IsAvl (node h key value left right) =
      (h ≡ 1 + max (height left) (height right))
      × (height left ≤ height right + 1)
      × (height right ≤ height left + 1)
      × IsAvl left
      × IsAvl right

  -- What a call that rebuilds a node with `key` between two subtrees gives.
  pub record Joins (left : Tree K V) (key : K) (value : V) (right : Tree K V)
      (t : Option (Tree K V)) : Type 0 where
    pub result : Tree K V
    pub returned : t ≡ some result
    pub avl : IsAvl result
    pub kept : entries result ≡ entries left ++ ((key, value) ∷ entries right)
    pub lower : max (height left) (height right) ≤ height result
    pub upper : height result ≤ 1 + max (height left) (height right)
    pub level :
        (height result ≡ 1 + max (height left) (height right))
        ⊎ (height left ≡ height right + 2)
        ⊎ (height right ≡ height left + 2)

  rebalance_left :
      (key : K) (value : V) (left right : Tree K V)
      → IsAvl left
      → IsAvl right
      → height left ≡ height right + 2
      → Joins left key value right (rebalance (new_node key value left right))
  unfolding rebalance new_node
  rebalance_left key value leaf right hl hr e = absurd (ground arith)
  rebalance_left key value (node h k v l leaf) right hl hr e = record {
    result = new_node k v l (new_node key value leaf right);
    returned =
        rw (above_one h (height right) (omega arith), not_below_zero (height l) 0 (omega arith));
    avl = ground arith;
    kept = simp append_assoc;
    lower = ground arith;
    upper = ground arith;
    level = inr (inl e);
  }
  rebalance_left key value (node h k v l (node h' k' v' l' r')) right hl hr e =
      elim (dec_lt (height l) h') [
        | yes lean ↦ record {
          result = new_node k' v' (new_node k v l l') (new_node key value r' right);
          returned = rw (above_one h (height right) (omega arith), below_zero (height l) h' lean);
          avl = ground arith;
          kept = simp append_assoc;
          lower = ground arith;
          upper = ground arith;
          level = inr (inl e);
        }
        | no even ↦ record {
          result = new_node k v l (new_node key value (node h' k' v' l' r') right);
          returned = rw (
            above_one h (height right) (omega arith),
            not_below_zero (height l) h' (omega arith),
          );
          avl = ground arith;
          kept = simp append_assoc;
          lower = ground arith;
          upper = ground arith;
          level = inr (inl e);
        }
      ]

  rebalance_right :
      (key : K) (value : V) (left right : Tree K V)
      → IsAvl left
      → IsAvl right
      → height right ≡ height left + 2
      → Joins left key value right (rebalance (new_node key value left right))
  unfolding rebalance new_node
  rebalance_right key value left leaf hl hr e = absurd (ground arith)
  rebalance_right key value left (node h k v leaf r) hl hr e = record {
    result = new_node k v (new_node key value left leaf) r;
    returned = rw (
      not_above_one (height left) h (omega arith),
      below_one (height left) h (omega arith),
      not_above_zero 0 (height r) (omega arith),
    );
    avl = ground arith;
    kept = simp append_assoc;
    lower = ground arith;
    upper = ground arith;
    level = inr (inr e);
  }
  rebalance_right key value left (node h k v (node h' k' v' l' r') r) hl hr e =
      elim (dec_lt (height r) h') [
        | yes lean ↦ record {
          result = new_node k' v' (new_node key value left l') (new_node k v r' r);
          returned = rw (
            not_above_one (height left) h (omega arith),
            below_one (height left) h (omega arith),
            above_zero h' (height r) lean,
          );
          avl = ground arith;
          kept = simp append_assoc;
          lower = ground arith;
          upper = ground arith;
          level = inr (inr e);
        }
        | no even ↦ record {
          result = new_node k v (new_node key value left (node h' k' v' l' r')) r;
          returned = rw (
            not_above_one (height left) h (omega arith),
            below_one (height left) h (omega arith),
            not_above_zero h' (height r) (omega arith),
          );
          avl = ground arith;
          kept = simp append_assoc;
          lower = ground arith;
          upper = ground arith;
          level = inr (inr e);
        }
      ]

  rebalance_even :
      (key : K) (value : V) (left right : Tree K V)
      → IsAvl left
      → IsAvl right
      → height left ≤ height right + 1
      → height right ≤ height left + 1
      → Joins left key value right (rebalance (new_node key value left right))
  unfolding rebalance new_node
  rebalance_even key value left right hl hr p q = record {
    result = new_node key value left right;
    returned = rw (
      not_above_one (height left) (height right) p,
      not_below_one (height left) (height right) q,
    );
    avl = ground arith;
    kept = refl;
    lower = ground arith;
    upper = ground arith;
    level = inl refl;
  }

  -- Two balanced trees whose heights differ by two at most are joined to a balanced tree.
  pub rebalance-Joins :
      (key : K) (value : V) (left right : Tree K V)
      → IsAvl left
      → IsAvl right
      → height left ≤ height right + 2
      → height right ≤ height left + 2
      → Joins left key value right (rebalance (new_node key value left right))
  rebalance-Joins key value left right hl hr p q = elim (dec_lt (height right + 1) (height left)) [
    | yes above ↦ rebalance_left key value left right hl hr (omega arith)
    | no fewer ↦ elim (dec_lt (height left + 1) (height right)) [
      | yes below ↦ rebalance_right key value left right hl hr (omega arith)
      | no more ↦ rebalance_even key value left right hl hr (omega arith) (omega arith)
    ]
  ]
