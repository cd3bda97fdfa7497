-- ===== src/Index/Avl/Laws.antt =====
-- Insertion and erasure in a list of entries: what a lookup finds, and that the keys stay ascending.
use policy_engine.Prelude.{◌≡◌, Ordering, none, some, List, [], ◌∷◌, arith}
use policy_engine.Index.Comparison.{Comparison}
use policy_engine.Index.Avl.Entries.{
  find, put, overlay, erase, Over, Over-trans, Ascending, find-Over,
}

module _ {K V : Type 0} (c : Comparison K) where
  pub find-put :
      (q key : K) (value : V) (m : List (K × V))
      → find c q (put c key value m) ≡ overlay (c.cmp q key) (some value) (find c q m)
  unfolding overlay
  find-put q key value [] = ground arith
  find-put q key value ((k, v) ∷ m) = ground (
    arith,
    find-put q key value m,
    c.eq_sound key k,
    c.eq_sound q k,
    c.eq_sound q key,
    c.self k,
    c.self key,
    c.lt_swap key k,
    c.gt_swap key k,
  )

  Over-put :
      (j key : K) (value : V) (m : List (K × V))
      → c.cmp j key ≡ Ordering.lt
      → Over c j m
      → Over c j (put c key value m)
  Over-put j key value [] h o = (h, tt)
  Over-put j key value ((k, v) ∷ m) h o = ground (arith, Over-put j key value m h o.1)

  pub Ascending-put :
      (key : K) (value : V) (m : List (K × V)) → Ascending c m → Ascending c (put c key value m)
  Ascending-put key value [] h = (tt, tt)
  Ascending-put key value ((k, v) ∷ m) h = ground (
    arith,
    Ascending-put key value m h.1,
    Over-put k key value m,
    c.gt_swap key k,
    Over-trans c key k m,
    c.eq_sound key k,
  )

  Over-erase : (j key : K) (m : List (K × V)) → Over c j m → Over c j (erase c key m)
  Over-erase j key [] o = tt
  Over-erase j key ((k, v) ∷ m) o = ground (arith, Over-erase j key m o.1)

  pub Ascending-erase : (key : K) (m : List (K × V)) → Ascending c m → Ascending c (erase c key m)
  Ascending-erase key [] h = tt
  Ascending-erase key ((k, v) ∷ m) h =
      ground (arith, Ascending-erase key m h.1, Over-erase k key m h.0)

  pub find-erase :
      (q key : K) (m : List (K × V))
      → Ascending c m
      → find c q (erase c key m) ≡ overlay (c.cmp q key) none (find c q m)
  unfolding overlay
  find-erase q key [] h = ground arith
  find-erase q key ((k, v) ∷ m) h = ground (
    arith,
    find-erase q key m h.1,
    c.eq_sound key k,
    c.eq_sound q k,
    c.eq_sound q key,
    c.self k,
    c.self key,
    c.lt_swap key k,
    c.gt_swap key k,
    find-Over c k m h.0,
    Over-trans c key k m,
    find-Over c key m,
  )
