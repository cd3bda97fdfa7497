-- ===== src/Cache/Revisions/Laws.antt =====
-- The compiled-revision cache's invariant, and the steps that keep it.
use policy_engine.Prelude.{
  arith, ℕ, ◌≤◌, ◌<◌, ◌≡◌, refl, sym, ◌∙◌, Bool, false, List, [], ◌∷◌, Option, none, some,
}
use policy_engine.Prelude.Assoc.{
  lookup, insert, touch, Distinct, length-erase, lookup-insert, Distinct-insert, length-insert_held,
  lookup-touch, Distinct-touch,
}
use policy_engine.Cache.Revisions.{
  RevisionKey, RevisionKey_Eq, ℕ_Eq, RevisionEntry, RevisionCall, RevisionCache, with_entries,
  set_active, set_active_found,
}
use policy_engine.Cache.Revisions.Evictions.{weight, IsStore, weight-erase}

module _ {A : Type 0} where
  -- What the call store knows of a load in flight for k.
  abbrev pub IsLive : RevisionKey → RevisionCall A → Type 0
  IsLive k l = (l.call_key ≡ k) × (1 ≤ l.waiters) × (l.abandoned ≡ false) × (l.outcome ≡ none)

  -- The store's bounds; and the loads in flight are the calls that are neither closed nor abandoned,
  -- one for a key, each waited for, none for a resident key.
  pub record IsRevisionCache (c : RevisionCache A) : Type 0 where
    pub store : IsStore c
    pub inflight_distinct : Distinct c.inflight
    pub absent :
        (k : RevisionKey) (i : ℕ) → lookup k c.inflight ≡ some i → lookup k c.entries ≡ none
    pub live :
        (k : RevisionKey) (i : ℕ)
        → lookup k c.inflight ≡ some i
        → (l : RevisionCall A) × (lookup i c.calls ≡ some l) × IsLive k l
    pub reserved :
        (i : ℕ) (l : RevisionCall A)
        → lookup i c.calls ≡ some l
        → l.outcome ≡ none
        → l.abandoned ≡ false
        → lookup l.call_key c.inflight ≡ some i
    pub fresh : (i : ℕ) (l : RevisionCall A) → lookup i c.calls ≡ some l → i < c.next_call

  weight-insert :
      (k : RevisionKey) (e d : RevisionEntry A) (m : List (RevisionKey × RevisionEntry A))
      → lookup k m ≡ some e
      → d.value ≡ e.value
      → weight (insert k d m) ≡ weight m
  weight-insert k e d [] h s = ground arith
  weight-insert k e d ((j, x) ∷ m) h s = ground (arith, weight-insert k e d m)

  -- The entries change and no key comes.
  swap-IsRevisionCache :
      (c : RevisionCache A) (m : List (RevisionKey × RevisionEntry A)) (b : ℕ)
      → IsRevisionCache c
      → IsStore (with_entries c m b)
      → ((k : RevisionKey) → lookup k c.entries ≡ none → lookup k m ≡ none)
      → IsRevisionCache (with_entries c m b)
  swap-IsRevisionCache c m b w s n = record {
    store = s;
    inflight_distinct = w.inflight_distinct;
    absent = λ k. λ i. λ h. n k (w.absent k i h);
    live = w.live;
    reserved = w.reserved;
    fresh = w.fresh;
  }

  pub touch-IsRevisionCache :
      (k : RevisionKey) (e : RevisionEntry A) (c : RevisionCache A)
      → IsRevisionCache c
      → lookup k c.entries ≡ some e
      → IsRevisionCache (with_entries c (touch k e c.entries) c.bytes)
  touch-IsRevisionCache k e c w h =
      swap-IsRevisionCache c (touch k e c.entries) c.bytes w
        (record {
          distinct = Distinct-touch k e c.entries w.store.distinct;
          accounted = omega (arith, w.store.accounted, weight-erase k e c.entries h);
          entries_bounded = omega (arith, w.store.entries_bounded, length-erase k e c.entries h);
          bytes_bounded = w.store.bytes_bounded;
        })
        (λ j. λ n.
          ground (arith, lookup-touch j k e c.entries w.store.distinct, RevisionKey_Eq.beq_iff k j))

  set_active_found-IsRevisionCache :
      (o : Option (RevisionEntry A)) (k : RevisionKey) (b : Bool) (c : RevisionCache A)
      → IsRevisionCache c
      → lookup k c.entries ≡ o
      → IsRevisionCache (set_active_found o k b c)
  set_active_found-IsRevisionCache none k b c w h = w
  set_active_found-IsRevisionCache (some e) k b c w h =
      let d : RevisionEntry A = record { value = e.value; active = b } in
      swap-IsRevisionCache c (insert k d c.entries) c.bytes w
        (record {
          distinct = Distinct-insert k d c.entries w.store.distinct;
          accounted = w.store.accounted ∙ sym (weight-insert k e d c.entries h refl);
          entries_bounded =
              omega (arith, w.store.entries_bounded, length-insert_held k d e c.entries h);
          bytes_bounded = w.store.bytes_bounded;
        })
        (λ j. λ n. ground (arith, lookup-insert j k d c.entries, RevisionKey_Eq.beq_iff k j))

  pub set_active-IsRevisionCache :
      (k : RevisionKey) (b : Bool) (c : RevisionCache A)
      → IsRevisionCache c
      → IsRevisionCache (set_active k b c)
  set_active-IsRevisionCache k b c w =
      ground (arith, set_active_found-IsRevisionCache (lookup k c.entries) k b c w refl)
