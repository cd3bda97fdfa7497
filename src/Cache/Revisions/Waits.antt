-- ===== src/Cache/Revisions/Waits.antt =====
-- The invariant through the joining, starting, leaving and closing of loads.
use policy_engine.Prelude.{
  arith, ℕ, suc, ◌≤◌, ◌≡◌, ◌≢◌, refl, sym, ◌∙◌, true, false, List, none, some, ◌⊎◌, inl, inr,
}
use mathlib.Core.Path.{ap}
use policy_engine.Prelude.Assoc.{
  lookup, insert, erase, Distinct-erase, Distinct-insert, insert-to, insert-from,
  lookup-insert_self, erase-to, erase-from,
}
use policy_engine.Cache.Revisions.{
  RevisionKey, RevisionKey_Eq, ℕ_Eq, RevisionError, HydratedRevision, RevisionEntry, RevisionCall,
  RevisionCache, with_entries, with_calls, set_waiters, set_outcome,
}
use policy_engine.Cache.Revisions.Loads.{start_load}
use policy_engine.Cache.Revisions.Evictions.{IsStore}
use policy_engine.Cache.Revisions.Laws.{IsRevisionCache}

module _ {A : Type 0} where
  -- The calls and the reservations are no part of the store.
  pub calls-IsStore :
      (c : RevisionCache A) (f : List (RevisionKey × ℕ)) (s : List (ℕ × RevisionCall A)) (n : ℕ)
      → IsStore c
      → IsStore (record {
        limits = c.limits;
        entries = c.entries;
        inflight = f;
        bytes = c.bytes;
        calls = s;
        next_call = n;
      })
  calls-IsStore c f s n w = record {
    distinct = w.distinct;
    accounted = w.accounted;
    entries_bounded = w.entries_bounded;
    bytes_bounded = w.bytes_bounded;
  }

  -- The number of waiters of a load changes.
  pub waiters-IsRevisionCache :
      (i n : ℕ) (l : RevisionCall A) (c : RevisionCache A)
      → IsRevisionCache c
      → lookup i c.calls ≡ some l
      → 1 ≤ n
      → IsRevisionCache (with_calls c c.inflight (insert i (set_waiters n l) c.calls))
  waiters-IsRevisionCache i n l c w h p =
      let v = set_waiters n l in
      record {
        store = calls-IsStore c c.inflight (insert i v c.calls) c.next_call w.store;
        inflight_distinct = w.inflight_distinct;
        absent = w.absent;
        live = λ k. λ j. λ f.
            let found = w.live k j f in
            elim (insert-to j i v found.0 c.calls found.1) [
              | inl (same, e) ↦
                  (let was : some found.0 ≡ some l =
                      sym found.1 ∙ ap (λ x. lookup x c.calls) same ∙ h in
                    (
                      v,
                      e,
                      (
                        ground (arith, was, found.2),
                        p,
                        ground (arith, was, found.2),
                        ground (arith, was, found.2),
                      ),
                    ))
              | inr (other, e) ↦ (found.0, e, found.2)
            ];
        reserved = λ j. λ m. λ g. λ o. λ a. elim (insert-from j i v m c.calls g) [
          | inl (same, e) ↦ ground (arith, w.reserved i l h)
          | inr (other, e) ↦ w.reserved j m e o a
        ];
        fresh = λ j. λ m. λ g. elim (insert-from j i v m c.calls g) [
          | inl (same, e) ↦ ground (arith, w.fresh i l h)
          | inr (other, e) ↦ w.fresh j m e
        ];
      }

  pub start_load-IsRevisionCache :
      (k : RevisionKey) (c : RevisionCache A)
      → IsRevisionCache c
      → lookup k c.entries ≡ none
      → lookup k c.inflight ≡ none
      → IsRevisionCache (start_load k c).1
  start_load-IsRevisionCache k c w h g =
      let n = c.next_call in
      let v : RevisionCall A = record {
        call_key = k;
        waiters = 1;
        abandoned = false;
        outcome = none;
      } in
      record {
        store = calls-IsStore c (insert k n c.inflight) (insert n v c.calls) (suc n) w.store;
        inflight_distinct = Distinct-insert k n c.inflight w.inflight_distinct;
        absent = λ j. λ i. λ f. elim (insert-from j k n i c.inflight f) [
          | inl (same, e) ↦ ap (λ x. lookup x c.entries) same ∙ h
          | inr (other, e) ↦ w.absent j i e
        ];
        live = λ j. λ i. λ f. elim (insert-from j k n i c.inflight f) [
          | inl (same, e) ↦ (
            v,
            ap (λ x. lookup x (insert n v c.calls)) e ∙ lookup-insert_self n v c.calls,
            (sym same, ground arith, refl, refl),
          )
          | inr (other, e) ↦
              (let found = w.live j i e in
                elim (insert-to i n v found.0 c.calls found.1) [
                  | inl (same, x) ↦ absurd (ground (arith, w.fresh i found.0 found.1))
                  | inr (o, x) ↦ (found.0, x, found.2)
                ])
        ];
        reserved = λ i. λ m. λ f. λ o. λ a. elim (insert-from i n v m c.calls f) [
          | inl (same, e) ↦ ground (arith, lookup-insert_self k n c.inflight)
          | inr (other, e) ↦
              (let held = w.reserved i m e o a in
                ground (arith, insert-to m.call_key k n i c.inflight held))
        ];
        fresh = λ i. λ m. λ f. elim (insert-from i n v m c.calls f) [
          | inl (same, e) ↦ ground arith
          | inr (other, e) ↦ ground (arith, w.fresh i m e)
        ];
      }

  -- A load in flight leaves, abandoned or closed, and maybe admitted.
  pub retire-IsRevisionCache :
      (i : ℕ) (l v : RevisionCall A) (c : RevisionCache A)
      (m : List (RevisionKey × RevisionEntry A)) (b : ℕ)
      → IsRevisionCache c
      → lookup i c.calls ≡ some l
      → lookup l.call_key c.inflight ≡ some i
      → (v.outcome ≡ none → v.abandoned ≡ false → ⊥)
      → IsStore (with_entries c m b)
      → ((k : RevisionKey) → k ≢ l.call_key → lookup k c.entries ≡ none → lookup k m ≡ none)
      → IsRevisionCache
          (with_calls (with_entries c m b) (erase l.call_key c.inflight) (insert i v c.calls))
  retire-IsRevisionCache i l v c m b w h g dead s n = record {
    store =
        calls-IsStore (with_entries c m b) (erase l.call_key c.inflight) (insert i v c.calls)
          c.next_call s;
    inflight_distinct = Distinct-erase l.call_key c.inflight w.inflight_distinct;
    absent = λ k. λ j. λ f.
        let was = erase-from k l.call_key j c.inflight w.inflight_distinct f in
        n k was.0 (w.absent k j was.1);
    live = λ k. λ j. λ f.
        let was = erase-from k l.call_key j c.inflight w.inflight_distinct f in
        let found = w.live k j was.1 in
        elim (insert-to j i v found.0 c.calls found.1) [
          | inl (same, e) ↦
              (let which : some found.0 ≡ some l =
                  sym found.1 ∙ ap (λ x. lookup x c.calls) same ∙ h in
                absurd (was.0 (ground (arith, which, found.2))))
          | inr (other, e) ↦ (found.0, e, found.2)
        ];
    reserved = λ j. λ x. λ f. λ o. λ a. elim (insert-from j i v x c.calls f) [
      | inl (same, e) ↦ absurd (ground (arith, dead))
      | inr (other, e) ↦
          (let held = w.reserved j x e o a in
            erase-to x.call_key l.call_key j c.inflight w.inflight_distinct held
              (λ q. other (ground (arith, held, g, ap (λ y. lookup y c.inflight) q))))
    ];
    fresh = λ j. λ x. λ f. elim (insert-from j i v x c.calls f) [
      | inl (same, e) ↦ ground (arith, w.fresh i l h)
      | inr (other, e) ↦ w.fresh j x e
    ];
  }

  -- An abandoned load is closed, with nothing admitted.
  pub close_abandoned-IsRevisionCache :
      (i : ℕ) (l : RevisionCall A) (r : RevisionError ⊎ HydratedRevision A) (c : RevisionCache A)
      → IsRevisionCache c
      → lookup i c.calls ≡ some l
      → l.abandoned ≡ true
      → IsRevisionCache (with_calls c c.inflight (insert i (set_outcome r l) c.calls))
  close_abandoned-IsRevisionCache i l r c w h d =
      let v = set_outcome r l in
      record {
        store = calls-IsStore c c.inflight (insert i v c.calls) c.next_call w.store;
        inflight_distinct = w.inflight_distinct;
        absent = w.absent;
        live = λ k. λ j. λ f.
            let found = w.live k j f in
            elim (insert-to j i v found.0 c.calls found.1) [
              | inl (same, e) ↦
                  (let was : some found.0 ≡ some l =
                      sym found.1 ∙ ap (λ x. lookup x c.calls) same ∙ h in
                    absurd (ground (arith, was, found.2)))
              | inr (other, e) ↦ (found.0, e, found.2)
            ];
        reserved = λ j. λ m. λ g. λ o. λ a. elim (insert-from j i v m c.calls g) [
          | inl (same, e) ↦ absurd (ground arith)
          | inr (other, e) ↦ w.reserved j m e o a
        ];
        fresh = λ j. λ m. λ g. elim (insert-from j i v m c.calls g) [
          | inl (same, e) ↦ ground (arith, w.fresh i l h)
          | inr (other, e) ↦ w.fresh j m e
        ];
      }
