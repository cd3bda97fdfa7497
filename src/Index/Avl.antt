-- ===== src/Index/Avl.antt =====
-- The immutable AVL tree of indexed.go, which the source writes out for revisions, tuples, entities
-- and path segments. A nil pointer is `leaf`; reading a field of nil panics, which is `none`.
pub mod Entries
pub mod Laws
pub mod Balance
pub mod Updates
pub mod Deletes
pub mod Reads
pub mod Buckets
pub mod Pages
use policy_engine.Prelude.{
  ℕ, suc, ◌+◌, max, Ordering, Bool, true, false, Option, none, some, if◌then◌else◌, ◌==◌,
}
use policy_engine.Prelude.Int.{ℤ, pos, negsuc, ◌-ℤ◌, ltb_ℤ}
use policy_engine.Index.Comparison.{Comparison}

infixl 5 ◌>>=◌
abbrev pub ◌>>=◌ : {A B : Type 0} → Option A → (A → Option B) → Option B
none >>= f = none
some a >>= f = f a

pub data Tree (K V : Type 0) : Type 0 where
  leaf : Tree K V
  node : ℕ → K → V → Tree K V → Tree K V → Tree K V

module _ {K V : Type 0} where
  unfoldable pub height : Tree K V → ℕ
  height leaf = 0
  height (node h key value left right) = h

  unfoldable pub new_node : K → V → Tree K V → Tree K V → Tree K V
  unfolding height
  new_node key value left right = node (1 + max (height left) (height right)) key value left right

  unfoldable pub balance : Tree K V → Option ℤ
  unfolding height
  balance leaf = none
  balance (node h key value left right) = some (pos (height left) -ℤ pos (height right))

  unfoldable pub rotate_right : Tree K V → Option (Tree K V)
  unfolding new_node
  rotate_right (node h key value (node h' pivot pivot_value left middle) right) =
      some (new_node pivot pivot_value left (new_node key value middle right))
  rotate_right _ = none

  unfoldable pub rotate_left : Tree K V → Option (Tree K V)
  unfolding new_node
  rotate_left (node h key value left (node h' pivot pivot_value middle right)) =
      some (new_node pivot pivot_value (new_node key value left middle) right)
  rotate_left _ = none

  -- The inner step of `rebalance`: a left child that leans right is rotated first.
  unfoldable pub lean_left : ℕ → K → V → Tree K V → Tree K V → Option (Tree K V)
  unfolding new_node balance rotate_left
  lean_left h key value left right = do
    b ← balance left
    if ltb_ℤ b (pos 0)
        then rotate_left left >>= (λ left'. some (new_node key value left' right))
        else some (node h key value left right)

  unfoldable pub lean_right : ℕ → K → V → Tree K V → Tree K V → Option (Tree K V)
  unfolding new_node balance rotate_right
  lean_right h key value left right = do
    b ← balance right
    if ltb_ℤ (pos 0) b
        then rotate_right right >>= (λ right'. some (new_node key value left right'))
        else some (node h key value left right)

  unfoldable pub rebalance : Tree K V → Option (Tree K V)
  unfolding lean_left lean_right rotate_left rotate_right height
  rebalance leaf = none
  rebalance (node h key value left right) =
      let b = pos (height left) -ℤ pos (height right) in
      if ltb_ℤ (pos 1) b
      then lean_left h key value left right >>= rotate_right
      else if ltb_ℤ b (negsuc 0)
      then lean_right h key value left right >>= rotate_left
      else some (node h key value left right)

  -- The loop that follows the left links.
  unfoldable pub least : Tree K V → Option (K × V)
  least leaf = none
  least (node h key value leaf right) = some (key, value)
  least (node h key value (node h' k v l r) right) = least (node h' k v l r)

  -- The case of `delete` where the key is found.
  unfoldable pub delete_here : Tree K V → Tree K V → (K → Option (Tree K V)) → Option (Tree K V)
  unfolding new_node rebalance least
  delete_here leaf right delete_right = some right
  delete_here (node h k v l r) leaf delete_right = some (node h k v l r)
  delete_here (node h k v l r) (node h' k' v' l' r') delete_right = do
    (key, value) ← least (node h' k' v' l' r')
    right ← delete_right key
    rebalance (new_node key value (node h k v l r) right)

module _ {K V : Type 0} (c : Comparison K) where
  unfoldable pub set : K → V → Tree K V → Option (Tree K V)
  unfolding new_node rebalance
  set key value leaf = some (new_node key value leaf leaf)
  set key value (node h k v left right) = elim (c.cmp key k) [
    | Ordering.lt ↦ set key value left >>= (λ left'. rebalance (new_node k v left' right))
    | Ordering.gt ↦ set key value right >>= (λ right'. rebalance (new_node k v left right'))
    | Ordering.eq ↦ some (new_node key value left right)
  ]

  unfoldable pub delete : K → Tree K V → Option (Tree K V)
  unfolding new_node rebalance delete_here
  delete key leaf = some leaf
  delete key (node h k v left right) = elim (c.cmp key k) [
    | Ordering.lt ↦ delete key left >>= (λ left'. rebalance (new_node k v left' right))
    | Ordering.gt ↦ delete key right >>= (λ right'. rebalance (new_node k v left right'))
    | Ordering.eq ↦ delete_here left right (λ successor. delete successor right)
  ]

  unfoldable pub get : K → Tree K V → Option V
  get key leaf = none
  get key (node h k v left right) = elim (c.cmp key k) [
    | Ordering.lt ↦ get key left
    | Ordering.gt ↦ get key right
    | Ordering.eq ↦ some v
  ]
