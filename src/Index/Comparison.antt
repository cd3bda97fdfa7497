-- ===== src/Index/Comparison.antt =====
-- A total comparison in the style of Go's `cmp.Compare`, as the interface of the search trees.
use policy_engine.Prelude.{◌≡◌, Ordering}

pub record Comparison (K : Type 0) : Type 0 where
  pub cmp : K → K → Ordering
  pub eq_sound : (a b : K) → cmp a b ≡ Ordering.eq → a ≡ b
  pub self : (a : K) → cmp a a ≡ Ordering.eq
  pub lt_swap : (a b : K) → cmp a b ≡ Ordering.lt → cmp b a ≡ Ordering.gt
  pub gt_swap : (a b : K) → cmp a b ≡ Ordering.gt → cmp b a ≡ Ordering.lt
  pub lt_trans : (a b c : K) → cmp a b ≡ Ordering.lt → cmp b c ≡ Ordering.lt → cmp a c ≡ Ordering.lt
