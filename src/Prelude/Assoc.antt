-- ===== src/Prelude/Assoc.antt =====
-- Go's maps and recency lists as association lists, over keys with a Boolean equality.
use policy_engine.Prelude.{
  suc, ◌-◌, ◌≡◌, ◌≢◌, refl, List, [], ◌∷◌, Option, none, some, ◌⊎◌, inl, inr, arith, if◌then◌else◌,
  length,
}
use policy_engine.Prelude.Eq.{Eq}

pub none-some : {A : Type 0} (x : A) → none ≡ some x → ⊥
none-some x h = ground arith

module _ {K V : Type 0} where
  -- A list without its last entry.
  abbrev pub drop_last : List (K × V) → List (K × V)
  drop_last [] = []
  drop_last (x ∷ []) = []
  drop_last (x ∷ y ∷ m) = x ∷ drop_last (y ∷ m)

  pub length-drop_last : (m : List (K × V)) → length (drop_last m) ≡ length m - 1
  length-drop_last [] = omega arith
  length-drop_last (x ∷ []) = omega arith
  length-drop_last (x ∷ y ∷ m) = omega (arith, length-drop_last (y ∷ m))

module _ {K V : Type 0} ⦃e : Eq K⦄ where
  abbrev pub lookup : K → List (K × V) → Option V
  lookup k [] = none
  lookup k ((j, v) ∷ m) = if e.beq j k then some v else lookup k m

  abbrev pub insert : K → V → List (K × V) → List (K × V)
  insert k v [] = (k, v) ∷ []
  insert k v ((j, w) ∷ m) = if e.beq j k then (k, v) ∷ m else (j, w) ∷ insert k v m

  -- `delete(m, k)`
  abbrev pub erase : K → List (K × V) → List (K × V)
  erase k [] = []
  erase k ((j, w) ∷ m) = if e.beq j k then m else (j, w) ∷ erase k m

  -- No key twice.
  abbrev pub Distinct : List (K × V) → Type 0
  Distinct [] = Unit
  Distinct ((k, v) ∷ m) = (lookup k m ≡ none) × Distinct m

  pub lookup-insert :
      (j k : K) (v : V) (m : List (K × V))
      → lookup j (insert k v m) ≡ (if e.beq k j then some v else lookup j m)
  lookup-insert j k v [] = refl
  lookup-insert j k v ((i, w) ∷ m) =
      ground (arith, e.beq_iff i k, e.beq_iff i j, e.beq_iff k j, lookup-insert j k v m)

  pub Distinct-insert : (k : K) (v : V) (m : List (K × V)) → Distinct m → Distinct (insert k v m)
  Distinct-insert k v [] d = (refl, tt)
  Distinct-insert k v ((i, w) ∷ m) d =
      ground (arith, e.beq_iff i k, e.beq_iff k i, lookup-insert i k v m, Distinct-insert k v m d.1)

  pub length-insert_fresh :
      (k : K) (v : V) (m : List (K × V))
      → lookup k m ≡ none
      → length (insert k v m) ≡ suc (length m)
  length-insert_fresh k v [] h = refl
  length-insert_fresh k v ((i, w) ∷ m) h = ground (arith, length-insert_fresh k v m)

  pub length-insert_held :
      (k : K) (v w : V) (m : List (K × V)) → lookup k m ≡ some w → length (insert k v m) ≡ length m
  length-insert_held k v w [] h = ground arith
  length-insert_held k v w ((i, u) ∷ m) h = ground (arith, length-insert_held k v w m)

  pub lookup-erase :
      (j k : K) (m : List (K × V))
      → Distinct m
      → lookup j (erase k m) ≡ (if e.beq k j then none else lookup j m)
  lookup-erase j k [] d = ground arith
  lookup-erase j k ((i, w) ∷ m) d =
      ground (arith, e.beq_iff i k, e.beq_iff i j, e.beq_iff k j, lookup-erase j k m d.1)

  pub Distinct-erase : (k : K) (m : List (K × V)) → Distinct m → Distinct (erase k m)
  Distinct-erase k [] d = tt
  Distinct-erase k ((i, w) ∷ m) d = ground (arith, lookup-erase i k m d.1, Distinct-erase k m d.1)

  pub length-erase :
      (k : K) (v : V) (m : List (K × V)) → lookup k m ≡ some v → suc (length (erase k m)) ≡ length m
  length-erase k v [] h = ground arith
  length-erase k v ((i, w) ∷ m) h = ground (arith, length-erase k v m)

  -- The entry of a key moves to the front.
  abbrev pub touch : K → V → List (K × V) → List (K × V)
  touch k v m = (k, v) ∷ erase k m

  pub Distinct-touch : (k : K) (v : V) (m : List (K × V)) → Distinct m → Distinct (touch k v m)
  Distinct-touch k v m d = ground (arith, e.beq_iff k k, lookup-erase k k m d, Distinct-erase k m d)

  pub lookup-touch :
      (j k : K) (v : V) (m : List (K × V))
      → Distinct m
      → lookup j (touch k v m) ≡ (if e.beq k j then some v else lookup j m)
  lookup-touch j k v m d = ground (arith, lookup-erase j k m d)

  lookup-drop_last-none :
      (j : K) (m : List (K × V)) → lookup j m ≡ none → lookup j (drop_last m) ≡ none
  lookup-drop_last-none j [] h = refl
  lookup-drop_last-none j (x ∷ []) h = refl
  lookup-drop_last-none j (x ∷ y ∷ m) h = ground (arith, lookup-drop_last-none j (y ∷ m))

  pub lookup-drop_last :
      (j : K) (m : List (K × V))
      → (lookup j (drop_last m) ≡ lookup j m) ⊎ (lookup j (drop_last m) ≡ none)
  lookup-drop_last j [] = inl refl
  lookup-drop_last j (x ∷ []) = inr refl
  lookup-drop_last j (x ∷ y ∷ m) = ground (arith, lookup-drop_last j (y ∷ m))

  pub Distinct-drop_last : (m : List (K × V)) → Distinct m → Distinct (drop_last m)
  Distinct-drop_last [] d = tt
  Distinct-drop_last (x ∷ []) d = tt
  Distinct-drop_last ((k, v) ∷ y ∷ m) d =
      (lookup-drop_last-none k (y ∷ m) d.0, Distinct-drop_last (y ∷ m) d.1)

  -- What an update makes of a held key, and where a key held after an update comes from.
  pub insert-to :
      (j k : K) (v x : V) (m : List (K × V))
      → lookup j m ≡ some x
      → ((j ≡ k) × (lookup j (insert k v m) ≡ some v))
        ⊎ ((j ≢ k) × (lookup j (insert k v m) ≡ some x))
  insert-to j k v x m h = ground (arith, lookup-insert j k v m, e.beq_iff k j)

  pub insert-from :
      (j k : K) (v x : V) (m : List (K × V))
      → lookup j (insert k v m) ≡ some x
      → ((j ≡ k) × (x ≡ v)) ⊎ ((j ≢ k) × (lookup j m ≡ some x))
  insert-from j k v x m h = ground (arith, lookup-insert j k v m, e.beq_iff k j)

  pub lookup-insert_self : (k : K) (v : V) (m : List (K × V)) → lookup k (insert k v m) ≡ some v
  lookup-insert_self k v m = ground (arith, lookup-insert k k v m, e.beq_iff k k)

  pub erase-to :
      (j k : K) (x : V) (m : List (K × V))
      → Distinct m
      → lookup j m ≡ some x
      → j ≢ k
      → lookup j (erase k m) ≡ some x
  erase-to j k x m d h n = ground (arith, lookup-erase j k m d, e.beq_iff k j)

  pub erase-from :
      (j k : K) (x : V) (m : List (K × V))
      → Distinct m
      → lookup j (erase k m) ≡ some x
      → (j ≢ k) × (lookup j m ≡ some x)
  erase-from j k x m d h = ground (arith, lookup-erase j k m d, e.beq_iff k j)

  pub lookup-insert_other :
      (j k : K) (v : V) (m : List (K × V)) → j ≢ k → lookup j (insert k v m) ≡ lookup j m
  lookup-insert_other j k v m n = ground (arith, lookup-insert j k v m, e.beq_iff k j)

  -- Taking an entry out again that was put in at a free key.
  pub lookup-erase_put :
      (j k : K) (v : V) (m t : List (K × V))
      → Distinct t
      → lookup k m ≡ none
      → lookup j t ≡ lookup j (insert k v m)
      → lookup j (erase k t) ≡ lookup j m
  lookup-erase_put j k v m t d free h =
      ground (arith, lookup-erase j k t d, lookup-insert j k v m, e.beq_iff k j)

  pub lookup-insert_again :
      (j k : K) (v w : V) (t m : List (K × V))
      → lookup j t ≡ lookup j (insert k w m)
      → lookup j (insert k v t) ≡ lookup j (insert k v m)
  lookup-insert_again j k v w t m h =
      ground (arith, lookup-insert j k v t, lookup-insert j k w m, lookup-insert j k v m)
