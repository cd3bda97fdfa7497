-- ===== src/Cache/Revisions/Flights.antt =====
-- The compiled-revision cache as a transition system, and its single flight.
use policy_engine.Prelude.{
  arith, ℕ, ◌+◌, ◌-◌, ◌≡◌, refl, sym, ◌∙◌, Bool, true, Option, none, some, inl, inr, ◌==◌,
  Bool-cases,
}
use policy_engine.Prelude.Assoc.{lookup}
use policy_engine.Cache.Revisions.{
  RevisionKey, RevisionKey_Eq, ℕ_Eq, RevisionEntry, RevisionCall, RevisionCache, set_abandoned,
}
use policy_engine.Cache.Revisions.Loads.{
  get_or_load, enter_found, enter_missing, is_call, leave_call, cancel_call,
}
use policy_engine.Cache.Revisions.Laws.{IsRevisionCache, touch-IsRevisionCache}
use policy_engine.Cache.Revisions.Waits.{
  waiters-IsRevisionCache, start_load-IsRevisionCache, retire-IsRevisionCache,
}

pub is_call_iff : (o : Option ℕ) (i : ℕ) → is_call o i ≡ true → o ≡ some i
is_call_iff none i h = ground arith
is_call_iff (some j) i h = ground arith

module _ {A : Type 0} where
  enter_missing-IsRevisionCache :
      (o : Option ℕ) (k : RevisionKey) (c : RevisionCache A)
      → IsRevisionCache c
      → lookup k c.entries ≡ none
      → lookup k c.inflight ≡ o
      → IsRevisionCache (enter_missing o k c).1
  enter_missing-IsRevisionCache none k c w h g = start_load-IsRevisionCache k c w h g
  enter_missing-IsRevisionCache (some i) k c w h g =
      let found = w.live k i g in
      rw found.1 (waiters-IsRevisionCache i (found.0.waiters + 1) found.0 c w found.1 (omega arith))

  enter_found-IsRevisionCache :
      (o : Option (RevisionEntry A)) (k : RevisionKey) (c : RevisionCache A)
      → IsRevisionCache c
      → lookup k c.entries ≡ o
      → IsRevisionCache (enter_found o k c).1
  enter_found-IsRevisionCache (some e) k c w h = touch-IsRevisionCache k e c w h
  enter_found-IsRevisionCache none k c w h =
      enter_missing-IsRevisionCache (lookup k c.inflight) k c w h refl

  pub get_or_load-IsRevisionCache :
      (x y : Bool) (k : RevisionKey) (c : RevisionCache A)
      → IsRevisionCache c
      → IsRevisionCache (get_or_load x y k c).1
  get_or_load-IsRevisionCache x y k c w =
      ground (arith, enter_found-IsRevisionCache (lookup k c.entries) k c w refl)

  leave_call-IsRevisionCache :
      (i : ℕ) (l : RevisionCall A) (c : RevisionCache A)
      → IsRevisionCache c
      → lookup i c.calls ≡ some l
      → lookup l.call_key c.inflight ≡ some i
      → IsRevisionCache (leave_call i l c)
  leave_call-IsRevisionCache i l c w h g =
      let found = w.live l.call_key i g in
      let same : some found.0 ≡ some l = sym found.1 ∙ h in
      elim (Bool-cases (l.waiters == 1)) [
        | inl e ↦ rw e (
            retire-IsRevisionCache i l (set_abandoned l) c c.entries c.bytes w h g
              (λ o. λ a. ground arith) w.store (λ k. λ d. λ n. n))
        | inr e ↦
            rw e (waiters-IsRevisionCache i (l.waiters - 1) l c w h (ground (arith, same, found.2)))
      ]

  pub cancel_call-IsRevisionCache :
      (o : Option (RevisionCall A)) (i : ℕ) (c : RevisionCache A)
      → IsRevisionCache c
      → lookup i c.calls ≡ o
      → IsRevisionCache (cancel_call o i c)
  cancel_call-IsRevisionCache none i c w h = w
  cancel_call-IsRevisionCache (some l) i c w h =
      elim (Bool-cases (is_call (lookup l.call_key c.inflight) i)) [
        | inl e ↦
            rw e (
              leave_call-IsRevisionCache i l c w h (is_call_iff (lookup l.call_key c.inflight) i e))
        | inr e ↦ rw e w
      ]
