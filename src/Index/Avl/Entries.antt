-- ===== src/Index/Avl/Entries.antt =====
-- The map that a search tree stands for: a list of entries with ascending keys.
use policy_engine.Prelude.{◌≡◌, refl, Ordering, Option, none, some, List, [], ◌∷◌, ◌++◌, arith}
use policy_engine.Index.Comparison.{Comparison}

abbrev pub All {κ} : {A : Type 0} → (A → Type κ) → List A → Type κ
All P [] = Unit
All P (x ∷ xs) = P x × All P xs

-- What is read under a key after an update at another key, by how the two compare.
unfoldable pub overlay : {V : Type 0} → Ordering → Option V → Option V → Option V
overlay Ordering.eq new old = new
overlay Ordering.lt new old = old
overlay Ordering.gt new old = old

module _ {K V : Type 0} (c : Comparison K) where
  abbrev pub find : K → List (K × V) → Option V
  find key [] = none
  find key ((k, v) ∷ m) =
      let rest = find key m in elim (c.cmp key k) [ Ordering.eq ↦ some v | _ ↦ rest ]

  abbrev pub put : K → V → List (K × V) → List (K × V)
  put key value [] = (key, value) ∷ []
  put key value ((k, v) ∷ m) = elim (c.cmp key k) [
    | Ordering.lt ↦ (key, value) ∷ (k, v) ∷ m
    | Ordering.eq ↦ (key, value) ∷ m
    | Ordering.gt ↦ (k, v) ∷ put key value m
  ]

  abbrev pub erase : K → List (K × V) → List (K × V)
  erase key [] = []
  erase key ((k, v) ∷ m) = elim (c.cmp key k) [
    | Ordering.lt ↦ (k, v) ∷ m
    | Ordering.eq ↦ m
    | Ordering.gt ↦ (k, v) ∷ erase key m
  ]

  abbrev pub Under : K → List (K × V) → Type 0
  Under key = All (λ e. c.cmp key e.0 ≡ Ordering.gt)

  abbrev pub Over : K → List (K × V) → Type 0
  Over key = All (λ e. c.cmp key e.0 ≡ Ordering.lt)

  abbrev pub Ascending : List (K × V) → Type 0
  Ascending [] = Unit
  Ascending ((k, v) ∷ m) = Over k m × Ascending m

  pub Over-trans : (j k : K) (m : List (K × V)) → c.cmp j k ≡ Ordering.lt → Over k m → Over j m
  Over-trans j k [] h o = tt
  Over-trans j k ((i, v) ∷ m) h o = (c.lt_trans j k i h o.0, Over-trans j k m h o.1)

  pub Under-trans : (j k : K) (m : List (K × V)) → c.cmp j k ≡ Ordering.gt → Under k m → Under j m
  Under-trans j k [] h o = tt
  Under-trans j k ((i, v) ∷ m) h o = (
    c.lt_swap i j (c.lt_trans i k j (c.gt_swap k i o.0) (c.gt_swap j k h)),
    Under-trans j k m h o.1,
  )

  -- A list that is put together around a key.
  pub record Splits (xs : List (K × V)) (key : K) (ys : List (K × V)) : Type 0 where
    pub left : Ascending xs
    pub under : Under key xs
    pub over : Over key ys
    pub right : Ascending ys

  Over-append : (key : K) (xs ys : List (K × V)) → Over key (xs ++ ys) → Over key xs × Over key ys
  Over-append key [] ys h = (tt, h)
  Over-append key (x ∷ xs) ys h = let (a, b) = Over-append key xs ys h.1 in ((h.0, a), b)

  pub split :
      (xs : List (K × V)) (key : K) (value : V) (ys : List (K × V))
      → Ascending (xs ++ ((key, value) ∷ ys))
      → Splits xs key ys
  split [] key value ys h = record { left = tt; under = tt; over = h.0; right = h.1 }
  split ((k, v) ∷ xs) key value ys h =
      let s = split xs key value ys h.1 in
      let (before, after) = Over-append k xs ((key, value) ∷ ys) h.0 in
      record {
        left = (before, s.left);
        under = (c.lt_swap k key after.0, s.under);
        over = s.over;
        right = s.right;
      }

  append-Over : (key : K) (xs ys : List (K × V)) → Over key xs → Over key ys → Over key (xs ++ ys)
  append-Over key [] ys h k = k
  append-Over key (x ∷ xs) ys h k = (h.0, append-Over key xs ys h.1 k)

  pub join :
      (xs : List (K × V)) (key : K) (value : V) (ys : List (K × V))
      → Splits xs key ys
      → Ascending (xs ++ ((key, value) ∷ ys))
  join [] key value ys s = (s.over, s.right)
  join ((k, v) ∷ xs) key value ys s =
      let near = c.gt_swap key k s.under.0 in
      (
        append-Over k xs ((key, value) ∷ ys) s.left.0 (near, Over-trans k key ys near s.over),
        join xs key value ys
            (record { left = s.left.1; under = s.under.1; over = s.over; right = s.right }),
      )

  pub put_left :
      (key : K) (value : V) (xs : List (K × V)) (k : K) (v : V) (ys : List (K × V))
      → c.cmp key k ≡ Ordering.lt
      → put key value (xs ++ ((k, v) ∷ ys)) ≡ put key value xs ++ ((k, v) ∷ ys)
  put_left key value [] k v ys h = rw h
  put_left key value ((j, w) ∷ xs) k v ys h = ground (arith, put_left key value xs k v ys h)

  pub put_right :
      (key : K) (value : V) (xs ys : List (K × V))
      → Under key xs
      → put key value (xs ++ ys) ≡ xs ++ put key value ys
  put_right key value [] ys h = refl
  put_right key value ((j, w) ∷ xs) ys h = ground (arith, put_right key value xs ys h.1)

  pub erase_left :
      (key : K) (xs : List (K × V)) (k : K) (v : V) (ys : List (K × V))
      → c.cmp key k ≡ Ordering.lt
      → erase key (xs ++ ((k, v) ∷ ys)) ≡ erase key xs ++ ((k, v) ∷ ys)
  erase_left key [] k v ys h = rw h
  erase_left key ((j, w) ∷ xs) k v ys h = ground (arith, erase_left key xs k v ys h)

  pub erase_right :
      (key : K) (xs ys : List (K × V)) → Under key xs → erase key (xs ++ ys) ≡ xs ++ erase key ys
  erase_right key [] ys h = refl
  erase_right key ((j, w) ∷ xs) ys h = ground (arith, erase_right key xs ys h.1)

  pub find-Over : (key : K) (xs : List (K × V)) → Over key xs → find key xs ≡ none
  find-Over key [] h = refl
  find-Over key ((j, w) ∷ xs) h = ground (arith, find-Over key xs h.1)

  pub find_left :
      (key : K) (xs : List (K × V)) (k : K) (v : V) (ys : List (K × V))
      → c.cmp key k ≡ Ordering.lt
      → Over k ys
      → find key (xs ++ ((k, v) ∷ ys)) ≡ find key xs
  find_left key [] k v ys h o = ground (arith, find-Over key ys (Over-trans key k ys h o))
  find_left key ((j, w) ∷ xs) k v ys h o = ground (arith, find_left key xs k v ys h o)

  pub find_right :
      (key : K) (xs ys : List (K × V)) → Under key xs → find key (xs ++ ys) ≡ find key ys
  find_right key [] ys h = refl
  find_right key ((j, w) ∷ xs) ys h = ground (arith, find_right key xs ys h.1)
