-- ===== src/Cache/Revisions/Evictions.antt =====
-- The compiled-revision cache's accounting, and its eviction loop: it ends, it makes the room it is
-- asked for, and it drops active revisions last.
use policy_engine.Prelude.{
  arith, ℕ, zero, suc, ◌+◌, ◌-◌, ◌≤◌, ◌<◌, ◌≡◌, ◌≢◌, refl, sym, ◌∙◌, true, false, List, [], ◌∷◌,
  Option, none, some, ◌⊎◌, inl, inr, length, Bool-cases, Option-cases,
}
use mathlib.Core.Path.{ap, subst}
use policy_engine.Prelude.Assoc.{
  lookup, erase, Distinct, lookup-erase, Distinct-erase, length-erase,
}
use policy_engine.Cache.Revisions.{
  RevisionKey, RevisionKey_Eq, RevisionEntry, RevisionCache, with_entries, last_inactive, back,
  candidate, remove_candidate, evict_one, needs_room, evict_until,
}

module _ {A : Type 0} where
  abbrev pub weight : List (RevisionKey × RevisionEntry A) → ℕ
  weight [] = 0
  weight ((k, e) ∷ m) = e.value.approximate_bytes + weight m

  -- No key twice, exact accounting, and both hard bounds.
  pub record IsStore (c : RevisionCache A) : Type 0 where
    pub distinct : Distinct c.entries
    pub accounted : c.bytes ≡ weight c.entries
    pub entries_bounded : length c.entries ≤ c.limits.max_entries
    pub bytes_bounded : c.bytes ≤ c.limits.max_bytes

  pub weight-erase :
      (k : RevisionKey) (e : RevisionEntry A) (m : List (RevisionKey × RevisionEntry A))
      → lookup k m ≡ some e
      → e.value.approximate_bytes + weight (erase k m) ≡ weight m
  weight-erase k e [] h = ground arith
  weight-erase k e ((j, d) ∷ m) h = ground (arith, weight-erase k e m)

  last_inactive_held :
      (k : RevisionKey) (e : RevisionEntry A) (m : List (RevisionKey × RevisionEntry A))
      → Distinct m
      → last_inactive m ≡ some (k, e)
      → (lookup k m ≡ some e) × (e.active ≡ false)
  last_inactive_held k e [] d h = ground arith
  last_inactive_held k e ((j, x) ∷ m) d h =
      ground (
        arith,
        last_inactive_held k e m d.1,
        RevisionKey_Eq.beq_iff j k,
        RevisionKey_Eq.beq_iff j j,
      )

  last_inactive-none :
      (k : RevisionKey) (e : RevisionEntry A) (m : List (RevisionKey × RevisionEntry A))
      → last_inactive m ≡ none
      → lookup k m ≡ some e
      → e.active ≡ true
  last_inactive-none k e [] n h = ground arith
  last_inactive-none k e ((j, x) ∷ m) n h = ground (arith, last_inactive-none k e m)

  back_held :
      (k : RevisionKey) (e : RevisionEntry A) (m : List (RevisionKey × RevisionEntry A))
      → Distinct m
      → back m ≡ some (k, e)
      → lookup k m ≡ some e
  back_held k e [] d h = ground arith
  back_held k e ((j, x) ∷ []) d h = ground (arith, RevisionKey_Eq.beq_iff j k)
  back_held k e ((j, x) ∷ y ∷ m) d h =
      ground (arith, back_held k e (y ∷ m) d.1 h, RevisionKey_Eq.beq_iff j k)

  back_some :
      (x : RevisionKey × RevisionEntry A) (m : List (RevisionKey × RevisionEntry A))
      → back (x ∷ m) ≢ none
  back_some x [] h = ground arith
  back_some x (y ∷ m) h = back_some y m h

  -- What the next eviction takes, and what is active when it takes an active one.
  candidate_held :
      (k : RevisionKey) (e : RevisionEntry A) (m : List (RevisionKey × RevisionEntry A))
      → Distinct m
      → candidate m ≡ some (k, e)
      → (lookup k m ≡ some e) × ((e.active ≡ false) ⊎ (last_inactive m ≡ none))
  candidate_held k e m d h = ground (arith, last_inactive_held k e m d, back_held k e m d)

  candidate-none : (m : List (RevisionKey × RevisionEntry A)) → candidate m ≡ none → m ≡ []
  candidate-none [] h = refl
  candidate-none (x ∷ m) h = ground (arith, back_some x m)

  -- d is c with some entries evicted: inactive ones first.
  pub record Evicted (c d : RevisionCache A) : Type 0 where
    pub store : IsStore d
    pub same : d ≡ with_entries c d.entries d.bytes
    pub kept :
        (j : RevisionKey) → (lookup j d.entries ≡ lookup j c.entries) ⊎ (lookup j d.entries ≡ none)
    pub preference :
        (j k : RevisionKey) (e x : RevisionEntry A)
        → lookup j c.entries ≡ some e
        → e.active ≡ true
        → lookup j d.entries ≡ none
        → lookup k d.entries ≡ some x
        → x.active ≡ true

  Evicted-refl : (c : RevisionCache A) → IsStore c → Evicted c c
  Evicted-refl c s = record {
    store = s;
    same = refl;
    kept = λ j. inl refl;
    preference = λ j. λ k. λ e. λ x. λ h. λ a. λ g. λ n. ground arith;
  }

  Evicted-trans : (c d f : RevisionCache A) → Evicted c d → Evicted d f → Evicted c f
  Evicted-trans c d f s t = record {
    store = t.store;
    same = ground (arith, s.same, t.same);
    kept = λ j. ground (arith, s.kept j, t.kept j);
    preference = λ j. λ k. λ e. λ x. λ h. λ a.
        λ g. λ n. ground (arith, s.kept j, t.kept k, s.preference j k e x, t.preference j k e x);
  }

  remove_candidate-Evicted :
      (k : RevisionKey) (e : RevisionEntry A) (c : RevisionCache A)
      → IsStore c
      → candidate c.entries ≡ some (k, e)
      → Evicted c (remove_candidate (some (k, e)) c)
  remove_candidate-Evicted k e c s h =
      let held = candidate_held k e c.entries s.distinct h in
      record {
        store = record {
          distinct = Distinct-erase k c.entries s.distinct;
          accounted = omega (arith, s.accounted, weight-erase k e c.entries held.0);
          entries_bounded = omega (arith, s.entries_bounded, length-erase k e c.entries held.0);
          bytes_bounded = omega (arith, s.bytes_bounded);
        };
        same = refl;
        kept = λ j. ground (arith, lookup-erase j k c.entries s.distinct);
        preference = λ j. λ i. λ f. λ x. λ g. λ a. λ n. λ m. ground (
          arith,
          held,
          lookup-erase j k c.entries s.distinct,
          lookup-erase i k c.entries s.distinct,
          RevisionKey_Eq.beq_iff k j,
          last_inactive-none i x c.entries,
        );
      }

  -- An eviction from a store that is not empty.
  evict_one-Evicted :
      (c : RevisionCache A)
      → IsStore c
      → Evicted c (evict_one c) × (length (evict_one c).entries ≡ length c.entries - 1)
  evict_one-Evicted c s = elim (Option-cases (candidate c.entries)) [
    | inl e ↦ rw e (
      Evicted-refl c s,
      ap length (candidate-none c.entries e)
          ∙ sym (ap (λ m. length m - 1) (candidate-none c.entries e)),
    )
    | inr ((k, x), e) ↦ rw e (
      remove_candidate-Evicted k x c s e,
      omega (arith, length-erase k x c.entries (candidate_held k x c.entries s.distinct e).0),
    )
  ]

  weight_empty : (m : List (RevisionKey × RevisionEntry A)) → length m ≤ 0 → weight m ≡ 0
  weight_empty [] h = refl
  weight_empty (x ∷ m) h = ground arith

  -- No room is needed: the condition of the loop is false.
  room :
      (w : ℕ) (c : RevisionCache A)
      → w ≤ c.limits.max_bytes
      → needs_room w c ≡ false
      → (length c.entries < c.limits.max_entries) × (c.bytes + w ≤ c.limits.max_bytes)
  room w c b h = (ground arith, ground arith)

  -- The loop makes the room that w bytes need.
  abbrev pub MakesRoom : ℕ → RevisionCache A → Option (RevisionCache A) → Type 0
  MakesRoom w c r =
      (d : RevisionCache A) × (r ≡ some d)
      × Evicted c d
      × (length d.entries < d.limits.max_entries)
      × (d.bytes + w ≤ d.limits.max_bytes)

  no_eviction :
      (w : ℕ) (c : RevisionCache A)
      → IsStore c
      → w ≤ c.limits.max_bytes
      → needs_room w c ≡ false
      → MakesRoom w c (some c)
  no_eviction w c s b h = (let free = room w c b h in (c, refl, Evicted-refl c s, free.0, free.1))

  -- For a store within its bounds, an entry limit that is not zero, as the code tests before the
  -- loop, and a value that the byte limit admits, the eviction loop ends within one turn for each
  -- entry; what is left has room for the value, is exactly accounted, holds
  -- only entries held before, and if an active entry was evicted then only active entries are left.
  pub evict_until-MakesRoom :
      (n w : ℕ) (c : RevisionCache A)
      → IsStore c
      → length c.entries ≤ n
      → 0 < c.limits.max_entries
      → w ≤ c.limits.max_bytes
      → MakesRoom w c (evict_until n w c)
  evict_until-MakesRoom zero w c s l m b =
      (let full : needs_room w c ≡ false = ground (arith, s.accounted, weight_empty c.entries l) in
        rw full (no_eviction w c s b full))
  evict_until-MakesRoom (suc n) w c s l m b = elim (Bool-cases (needs_room w c)) [
    | inl more ↦
        (let one = evict_one-Evicted c s in
          let lim : (evict_one c).limits ≡ c.limits = ap (λ d. d.limits) one.0.same in
          let left : length (evict_one c).entries ≤ n = omega (arith, l, one.1) in
          let m' : 0 < (evict_one c).limits.max_entries =
            subst (λ x. 0 < x.max_entries) (sym lim) m in
          let b' : w ≤ (evict_one c).limits.max_bytes = subst (λ x. w ≤ x.max_bytes) (sym lim) b in
          let rest = evict_until-MakesRoom n w (evict_one c) one.0.store left m' b' in
          rw more
            (rest.0, rest.1, Evicted-trans c (evict_one c) rest.0 one.0 rest.2, rest.3, rest.4))
    | inr done ↦ rw done (no_eviction w c s b done)
  ]
