-- ===== src/Cache/Revisions/Admissions.antt =====
-- What the admission of a loaded value does to the entries.
use policy_engine.Prelude.{
  arith, ◌+◌, ◌≡◌, ◌≢◌, refl, ◌∙◌, Bool, true, false, ◌&&◌, not, ◌∷◌, Option, none, some, ◌⊎◌, inl,
  inr, if◌then◌else◌, length, leb, ◌==◌, Bool-cases,
}
use mathlib.Core.Path.{ap}
use policy_engine.Prelude.Assoc.{lookup}
use policy_engine.Cache.Revisions.{
  RevisionKey, RevisionKey_Eq, ℕ_Eq, HydratedRevision, RevisionEntry, RevisionCache, with_entries,
}
use policy_engine.Cache.Revisions.Evictions.{IsStore}
use policy_engine.Cache.Revisions.{RevisionLimits, admit, push_entry, evict_until}
use policy_engine.Cache.Revisions.Evictions.{MakesRoom, evict_until-MakesRoom}

module _ {A : Type 0} where
  -- The value is within the limits on its own.
  abbrev pub fits : RevisionLimits → HydratedRevision A → Bool
  fits m v =
      not (m.max_entries == 0) && not (m.max_bytes == 0) && leb v.approximate_bytes m.max_bytes

  -- d is c with v admitted under the new key k, if it fits, and nothing else come.
  pub record Admitted (k : RevisionKey) (v : HydratedRevision A) (c d : RevisionCache A)
      : Type 0 where
    pub store : IsStore d
    pub same : d ≡ with_entries c d.entries d.bytes
    pub resident :
        lookup k d.entries
        ≡ (if fits c.limits v then some (record { value = v; active = false }) else none)
    pub others :
        (j : RevisionKey)
        → j ≢ k
        → (lookup j d.entries ≡ lookup j c.entries) ⊎ (lookup j d.entries ≡ none)
    pub preference :
        (i j : RevisionKey) (e x : RevisionEntry A)
        → lookup i c.entries ≡ some e
        → e.active ≡ true
        → lookup i d.entries ≡ none
        → j ≢ k
        → lookup j d.entries ≡ some x
        → x.active ≡ true

  push-Admitted :
      (k : RevisionKey) (v : HydratedRevision A) (c : RevisionCache A)
      (o : Option (RevisionCache A))
      → fits c.limits v ≡ true
      → lookup k c.entries ≡ none
      → MakesRoom v.approximate_bytes c o
      → (d : RevisionCache A) × (push_entry k v o ≡ some (v, d)) × Admitted k v c d
  push-Admitted k v c o f h (d, e, ev, l, b) =
      let n : lookup k d.entries ≡ none = ground (arith, ev.kept k) in
      let x : RevisionEntry A = record { value = v; active = false } in
      (
        with_entries d ((k, x) ∷ d.entries) (d.bytes + v.approximate_bytes),
        ap (push_entry k v) e,
        record {
          store = record {
            distinct = (n, ev.store.distinct);
            accounted = omega (arith, ev.store.accounted);
            entries_bounded = omega (arith, l);
            bytes_bounded = omega (arith, b);
          };
          same = ground (arith, ev.same);
          resident = ground (arith, f, RevisionKey_Eq.beq_iff k k);
          others = λ j. λ q. ground (arith, ev.kept j, RevisionKey_Eq.beq_iff k j);
          preference = λ i. λ j. λ y. λ z. λ g. λ a. λ m. λ q. λ p. ground (
            arith,
            ev.preference i j y z,
            RevisionKey_Eq.beq_iff k i,
            RevisionKey_Eq.beq_iff k j,
          );
        },
      )

  pub admit-Admitted :
      (k : RevisionKey) (v : HydratedRevision A) (c : RevisionCache A)
      → IsStore c
      → lookup k c.entries ≡ none
      → (d : RevisionCache A) × (admit k v c ≡ some (v, d)) × Admitted k v c d
  admit-Admitted k v c s h = elim (Bool-cases (fits c.limits v)) [
    | inl f ↦
        (let found : admit k v c
              ≡ push_entry k v (evict_until (length c.entries) v.approximate_bytes c) =
            ground (arith, h, f) in
          let made =
            evict_until-MakesRoom (length c.entries) v.approximate_bytes c s (omega arith)
              (ground (arith, f)) (ground (arith, f)) in
          let pushed =
            push-Admitted k v c (evict_until (length c.entries) v.approximate_bytes c) f h made in
          (pushed.0, found ∙ pushed.1, pushed.2))
    | inr f ↦ (
      c,
      ground (arith, h, f),
      record {
        store = s;
        same = refl;
        resident = ground (arith, h, f);
        others = λ j. λ q. inl refl;
        preference = λ i. λ j. λ y. λ z. λ g. λ a. λ m. λ q. λ p. ground arith;
      },
    )
  ]
