-- ===== src/Index/Avl/Buckets.antt =====
-- The visit of one bucket of a search tree: the entries that a coarser comparison calls equal.
use policy_engine.Prelude.{
  ◌≡◌, ◌≢◌, refl, sym, ap, ◌∙◌, Ordering, Bool, true, false, inl, inr, List, [], ◌∷◌, ◌++◌, arith,
}
use mathlib.Core.Path.{fun_ext}
use policy_engine.Index.Comparison.{Comparison}
use policy_engine.Index.Avl.{Tree, leaf, node}
use policy_engine.Index.Avl.Balance.{entries}
use policy_engine.Index.Avl.Entries.{All, Ascending, Over, Under, split}
use policy_engine.Index.Avl.Updates.{Ordering-cases}

-- Where a key stands of the bucket, in keeping with the order of the keys.
pub record Bucket {K : Type 0} (c : Comparison K) : Type 0 where
  pub side : K → Ordering
  pub lt_down : (j k : K) → c.cmp k j ≡ Ordering.gt → side k ≡ Ordering.lt → side j ≡ Ordering.lt
  pub gt_up : (j k : K) → c.cmp k j ≡ Ordering.lt → side k ≡ Ordering.gt → side j ≡ Ordering.gt

-- A visitor changes its state, and says whether to go on.
abbrev pub Visitor : Type 0 → Type 0 → Type 0
Visitor V S = V → S → Bool × S

-- `a() && b()`
abbrev pub both : {S : Type 0} → Bool × S → (S → Bool × S) → Bool × S
both (true, s) next = next s
both (false, s) next = (false, s)

pub both_assoc :
    {S : Type 0} (r : Bool × S) (f g : S → Bool × S)
    → both (both r f) g ≡ both r (λ s. both (f s) g)
both_assoc (true, s) f g = refl
both_assoc (false, s) f g = refl

both-true : {S : Type 0} (r : Bool × S) → both r (λ s. (true, s)) ≡ r
both-true (true, s) = refl
both-true (false, s) = refl

module _ {K V S : Type 0} (side : K → Ordering) (visit : Visitor V S) where
  unfoldable pub query : Tree K V → S → Bool × S
  query leaf s = (true, s)
  query (node h k v left right) s = elim (side k) [
    | Ordering.lt ↦ query right s
    | Ordering.gt ↦ query left s
    | Ordering.eq ↦ both (query left s) (λ s. both (visit v s) (λ s. query right s))
  ]

  -- The specification: the entries of the bucket, in the order of their keys, up to the first
  -- refusal.
  unfoldable pub visit_bucket : List (K × V) → S → Bool × S
  visit_bucket [] s = (true, s)
  visit_bucket ((k, v) ∷ m) s = elim (side k) [
    | Ordering.eq ↦ both (visit v s) (λ s. visit_bucket m s)
    | _ ↦ visit_bucket m s
  ]

  visit_bucket-append :
      (xs ys : List (K × V)) (s : S)
      → visit_bucket (xs ++ ys) s ≡ both (visit_bucket xs s) (λ s. visit_bucket ys s)
  unfolding visit_bucket
  visit_bucket-append [] ys s = refl
  visit_bucket-append ((k, v) ∷ xs) ys s = elim (Ordering-cases (side k)) [
    | inl below ↦ rw (below, visit_bucket) (visit_bucket-append xs ys s)
    | inr (inl above) ↦ rw (above, visit_bucket) (visit_bucket-append xs ys s)
    | inr (inr same) ↦
        rw (same, visit_bucket) (rw both_assoc (rw (fun_ext (λ s. visit_bucket-append xs ys s))))
  ]

  abbrev Outside : List (K × V) → Type 0
  Outside = All (λ e. side e.0 ≢ Ordering.eq)

  visit_bucket-Outside : (m : List (K × V)) (s : S) → Outside m → visit_bucket m s ≡ (true, s)
  unfolding visit_bucket
  visit_bucket-Outside [] s h = refl
  visit_bucket-Outside ((k, v) ∷ m) s h = ground (arith, visit_bucket-Outside m s h.1)

module _ {K V S : Type 0} (c : Comparison K) (b : Bucket c) (visit : Visitor V S) where
  Over-Outside :
      (k : K) (m : List (K × V))
      → b.side k ≡ Ordering.gt
      → Over c k m
      → Outside {V = V} {S = S} b.side visit m
  Over-Outside k [] e o = tt
  Over-Outside k ((j, v) ∷ m) e o = (λ same. cc (same, b.gt_up j k o.0 e), Over-Outside k m e o.1)

  Under-Outside :
      (k : K) (m : List (K × V))
      → b.side k ≡ Ordering.lt
      → Under c k m
      → Outside {V = V} {S = S} b.side visit m
  Under-Outside k [] e o = tt
  Under-Outside k ((j, v) ∷ m) e o =
      (λ same. cc (same, b.lt_down j k o.0 e), Under-Outside k m e o.1)

  -- The pruned search visits exactly the bucket, in order, up to the first refusal.
  pub query-visit_bucket :
      (t : Tree K V) (s : S)
      → Ascending c (entries t)
      → query b.side visit t s ≡ visit_bucket b.side visit (entries t) s
  unfolding query visit_bucket
  query-visit_bucket leaf s h = refl
  query-visit_bucket (node n k v l r) s h =
      let parts = split c (entries l) k v (entries r) h in
      rw (visit_bucket-append b.side visit (entries l) ((k, v) ∷ entries r) s)
        (elim (Ordering-cases (b.side k)) [
          | inl below ↦
              rw
                (
                  below,
                  query,
                  visit_bucket-Outside b.side visit (entries l) s
                      (Under-Outside k (entries l) below parts.under),
                )
                (rw (below, visit_bucket) (query-visit_bucket r s parts.right))
          | inr (inl above) ↦
              rw (above, query)
                (query-visit_bucket l s parts.left
                  ∙ sym (
                      ap (both (visit_bucket b.side visit (entries l) s)) (
                        fun_ext (λ s'.
                          visit_bucket-Outside b.side visit ((k, v) ∷ entries r) s' (
                            λ same. cc (same, above),
                            Over-Outside k (entries r) above parts.over,
                          )))
                      ∙ both-true _))
          | inr (inr same) ↦
              rw (same, query, query-visit_bucket l s parts.left)
                (ap (both (visit_bucket b.side visit (entries l) s)) (
                  fun_ext (λ s'.
                    rw (same, visit_bucket)
                      (rw (fun_ext (λ s''. query-visit_bucket r s'' parts.right))))))
        ])
