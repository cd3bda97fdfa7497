-- ===== src/Cache/Revisions/Completion.antt =====
-- The completion of a load: what it admits, and that it always ends.
use policy_engine.Prelude.{
  arith, ℕ, ◌≡◌, ◌≢◌, refl, sym, ◌∙◌, Bool, true, false, Option, none, some, ◌⊎◌, inl, inr,
  if◌then◌else◌, Bool-cases,
}
use mathlib.Core.Path.{ap, subst}
use policy_engine.Prelude.Assoc.{lookup, insert, erase, lookup-insert_self}
use policy_engine.Cache.Revisions.{
  RevisionKey, RevisionKey_Eq, ℕ_Eq, RevisionError, HydratedRevision, RevisionCall, RevisionCache,
  with_entries, with_calls, set_outcome,
}
use policy_engine.Cache.Revisions.Loads.{is_call, leave_inflight}
use policy_engine.Cache.Revisions.Evictions.{IsStore}
use policy_engine.Cache.Revisions.Laws.{IsRevisionCache}
use policy_engine.Cache.Revisions.{admit}
use policy_engine.Cache.Revisions.Loads.{
  close_call, close_admitted, complete_loaded, complete_open, complete_call, complete_revision_load,
  wait_done,
}
use policy_engine.Cache.Revisions.Waits.{
  retire-IsRevisionCache, close_abandoned-IsRevisionCache, calls-IsStore,
}
use policy_engine.Cache.Revisions.Flights.{is_call_iff}
use policy_engine.Cache.Revisions.Admissions.{fits, admit-Admitted}

module _ {A : Type 0} where
  -- What the end of a load does to the entries: nothing when it failed or was abandoned.
  abbrev pub Loaded :
      Bool
      → RevisionError ⊎ HydratedRevision A
      → RevisionKey
      → RevisionCache A
      → RevisionCache A
      → Type 0
  Loaded true r k c d = d.entries ≡ c.entries
  Loaded false (inl e) k c d = d.entries ≡ c.entries
  Loaded false (inr v) k c d =
      (lookup k d.entries
        ≡ (if fits c.limits v then some (record { value = v; active = false }) else none))
      × ((j : RevisionKey)
          → j ≢ k
          → (lookup j d.entries ≡ lookup j c.entries) ⊎ (lookup j d.entries ≡ none))

  -- The end of a load: the cache is well formed, and everyone who waits gets the outcome.
  abbrev pub Ends :
      ℕ
      → RevisionCall A
      → RevisionError ⊎ HydratedRevision A
      → RevisionCache A
      → Option (RevisionCache A)
      → Type 0
  Ends i l r c o =
      (d : RevisionCache A) × (o ≡ some d)
      × IsRevisionCache d
      × (wait_done i d ≡ some r)
      × Loaded l.abandoned r l.call_key c d

  -- A live load is reserved, so its completion takes it out.
  leave_live :
      (i : ℕ) (l : RevisionCall A) (c : RevisionCache A)
      → lookup l.call_key c.inflight ≡ some i
      → leave_inflight l.call_key i c.inflight ≡ erase l.call_key c.inflight
  leave_live i l c g = ground arith

  leave_abandoned :
      (i : ℕ) (l : RevisionCall A) (c : RevisionCache A)
      → IsRevisionCache c
      → lookup i c.calls ≡ some l
      → l.abandoned ≡ true
      → leave_inflight l.call_key i c.inflight ≡ c.inflight
  leave_abandoned i l c w h a = elim (Bool-cases (is_call (lookup l.call_key c.inflight) i)) [
    | inl e ↦
        (let found = w.live l.call_key i (is_call_iff (lookup l.call_key c.inflight) i e) in
          let same : some found.0 ≡ some l = sym found.1 ∙ h in
          absurd (ground (arith, same, found.2)))
    | inr e ↦ rw e refl
  ]

  closed_outcome :
      (i : ℕ) (l : RevisionCall A) (r : RevisionError ⊎ HydratedRevision A) (c : RevisionCache A)
      → wait_done i (close_call i l r c) ≡ some r
  closed_outcome i l r c = rw (wait_done, lookup-insert_self i (set_outcome r l) c.calls) refl

  abandoned-Ends :
      (i : ℕ) (l : RevisionCall A) (r : RevisionError ⊎ HydratedRevision A) (c : RevisionCache A)
      → IsRevisionCache c
      → lookup i c.calls ≡ some l
      → l.abandoned ≡ true
      → Ends i l r c (some (close_call i l r c))
  abandoned-Ends i l r c w h a = (
    close_call i l r c,
    refl,
    close_abandoned-IsRevisionCache i l r c w h a,
    closed_outcome i l r c,
    rw a refl,
  )

  failed-Ends :
      (i : ℕ) (l : RevisionCall A) (e : RevisionError) (c : RevisionCache A)
      → IsRevisionCache c
      → lookup i c.calls ≡ some l
      → lookup l.call_key c.inflight ≡ some i
      → l.abandoned ≡ false
      → Ends i l
          (inl e)
          c
          (some (close_call i l (inl e) (with_calls c (erase l.call_key c.inflight) c.calls)))
  failed-Ends i l e c w h g a =
      let z = with_calls c (erase l.call_key c.inflight) c.calls in
      (
        close_call i l (inl e) z,
        refl,
        retire-IsRevisionCache i l (set_outcome (inl e) l) c c.entries c.bytes w h g
            (λ o. λ b. ground arith) w.store (λ k. λ d. λ n. n),
        closed_outcome i l (inl e) z,
        rw a refl,
      )

  admitted-Ends :
      (i : ℕ) (l : RevisionCall A) (v : HydratedRevision A) (c : RevisionCache A)
      → IsRevisionCache c
      → lookup i c.calls ≡ some l
      → lookup l.call_key c.inflight ≡ some i
      → l.abandoned ≡ false
      → Ends i l (inr v) c (
          close_admitted i l
            (admit l.call_key v (with_calls c (erase l.call_key c.inflight) c.calls)))
  admitted-Ends i l v c w h g a =
      let k = l.call_key in
      let f = erase k c.inflight in
      let z = with_calls c f c.calls in
      let (d, e, ad) =
        admit-Admitted k v z (calls-IsStore c f c.calls c.next_call w.store) (w.absent k i g) in
      let y =
        with_calls (with_entries c d.entries d.bytes) f
          (insert i (set_outcome (inr v) l) c.calls) in
      let same : close_call i l (inr v) d ≡ y = ap (close_call i l (inr v)) ad.same in
      (
        y,
        ap (close_admitted i l) e ∙ ap some same,
        retire-IsRevisionCache i l (set_outcome (inr v) l) c d.entries d.bytes w h g
            (λ o. λ b. ground arith)
            (calls-IsStore (with_entries z d.entries d.bytes) c.inflight c.calls c.next_call
              (subst IsStore ad.same ad.store))
            (λ j. λ n. λ m. ground (arith, ad.others j n)),
        closed_outcome i l (inr v) (with_calls (with_entries c d.entries d.bytes) f c.calls),
        rw a (ad.resident, ad.others),
      )

  live_loaded :
      (i : ℕ) (l : RevisionCall A) (v : HydratedRevision A) (c : RevisionCache A)
      → l.abandoned ≡ false
      → complete_loaded i l (inr v) c ≡ close_admitted i l (admit l.call_key v c)
  live_loaded i l v c a =
      ap
        (λ b.
          if b then some (close_call i l (inr v) c) else close_admitted i l (admit l.call_key v c))
        a

  live-Ends :
      (r : RevisionError ⊎ HydratedRevision A) (i : ℕ) (l : RevisionCall A) (c : RevisionCache A)
      → IsRevisionCache c
      → lookup i c.calls ≡ some l
      → lookup l.call_key c.inflight ≡ some i
      → l.abandoned ≡ false
      → Ends i l r c (complete_loaded i l r (with_calls c (erase l.call_key c.inflight) c.calls))
  live-Ends (inl e) i l c w h g a = failed-Ends i l e c w h g a
  live-Ends (inr v) i l c w h g a =
      subst (Ends i l (inr v) c)
        (sym (live_loaded i l v (with_calls c (erase l.call_key c.inflight) c.calls) a))
        (admitted-Ends i l v c w h g a)

  dead-loaded :
      (r : RevisionError ⊎ HydratedRevision A) (i : ℕ) (l : RevisionCall A) (c : RevisionCache A)
      → l.abandoned ≡ true
      → complete_loaded i l r c ≡ some (close_call i l r c)
  dead-loaded (inl e) i l c a = refl
  dead-loaded (inr v) i l c a = rw a refl

  -- A load that is not closed, in a well-formed cache, always completes, whatever it loaded: the
  -- cache stays well formed, every waiter of the call gets exactly what was loaded, and the entries
  -- are unchanged if the load failed or was abandoned; otherwise the key is resident exactly when the
  -- value fits the limits on its own, and every other key's entry is as before or evicted.
  pub complete_revision_load-Ends :
      (i : ℕ) (l : RevisionCall A) (r : RevisionError ⊎ HydratedRevision A) (c : RevisionCache A)
      → IsRevisionCache c
      → lookup i c.calls ≡ some l
      → l.outcome ≡ none
      → Ends i l r c (complete_revision_load i r c)
  complete_revision_load-Ends i l r c w h o = elim (Bool-cases l.abandoned) [
    | inl a ↦
        rw
          (
            complete_revision_load,
            h,
            complete_call,
            o,
            complete_open,
            leave_abandoned i l c w h a,
            dead-loaded r i l c a,
          )
          (abandoned-Ends i l r c w h a)
    | inr a ↦
        (let g = w.reserved i l h o a in
          rw (complete_revision_load, h, complete_call, o, complete_open, leave_live i l c g)
            (live-Ends r i l c w h g a))
  ]
