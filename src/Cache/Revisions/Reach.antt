-- ===== src/Cache/Revisions/Reach.antt =====
-- The compiled-revision cache as a transition system: each step holds the mutex once.
use policy_engine.Prelude.{
  arith, ℕ, ◌≡◌, refl, sym, ◌∙◌, Bool, false, none, some, ◌⊎◌, inl, inr, Option-cases, same_value,
}
use mathlib.Core.Path.{ap, subst}
use policy_engine.Prelude.Assoc.{lookup}
use policy_engine.Cache.Revisions.{
  RevisionKey, RevisionKey_Eq, ℕ_Eq, RevisionError, HydratedRevision, RevisionCall, RevisionCache,
  set_active,
}
use policy_engine.Cache.Revisions.Loads.{get_or_load, wait_canceled}
use policy_engine.Cache.Revisions.Laws.{IsRevisionCache}
use policy_engine.Cache.Revisions.Loads.{complete_revision_load}
use policy_engine.Cache.Revisions.Laws.{set_active-IsRevisionCache}
use policy_engine.Prelude.Int.{ℤ}
use policy_engine.Cache.Revisions.{new_revision_cache}
use policy_engine.Cache.Revisions.Flights.{get_or_load-IsRevisionCache, cancel_call-IsRevisionCache}
use policy_engine.Cache.Revisions.Completion.{complete_revision_load-Ends}

module _ {A : Type 0} where
  pub data Step : RevisionCache A → RevisionCache A → Type 0 where
    entered : {c : RevisionCache A} (x y : Bool) (k : RevisionKey) → Step c (get_or_load x y k c).1
    completed :
        {c d : RevisionCache A} (i : ℕ) (r : RevisionError ⊎ HydratedRevision A)
        → complete_revision_load i r c ≡ some d
        → Step c d
    canceled : {c : RevisionCache A} (i : ℕ) → Step c (wait_canceled i c)
    activated : {c : RevisionCache A} (k : RevisionKey) (b : Bool) → Step c (set_active k b c)

  pub data Reaches (c : RevisionCache A) : RevisionCache A → Type 0 where
    here : Reaches c c
    then_step : {d e : RevisionCache A} → Reaches c d → Step d e → Reaches c e

  -- A completion that returned was of a call not yet closed.
  completed_open :
      (i : ℕ) (r : RevisionError ⊎ HydratedRevision A) (c d : RevisionCache A)
      → complete_revision_load i r c ≡ some d
      → (l : RevisionCall A) × (lookup i c.calls ≡ some l) × (l.outcome ≡ none)
  completed_open i r c d e = elim (Option-cases (lookup i c.calls)) [
    | inl h ↦ absurd (ground arith)
    | inr (l, h) ↦ elim (Option-cases l.outcome) [
      | inl o ↦ (l, h, o)
      | inr (o, g) ↦ absurd (ground arith)
    ]
  ]

  completed-IsRevisionCache :
      (i : ℕ) (r : RevisionError ⊎ HydratedRevision A) (c d : RevisionCache A)
      → IsRevisionCache c
      → complete_revision_load i r c ≡ some d
      → IsRevisionCache d
  completed-IsRevisionCache i r c d w e =
      let (l, h, o) = completed_open i r c d e in
      let (f, g, v, _, _) = complete_revision_load-Ends i l r c w h o in
      subst IsRevisionCache (same_value (sym g ∙ e)) v

  Step-IsRevisionCache : {c d : RevisionCache A} → IsRevisionCache c → Step c d → IsRevisionCache d
  Step-IsRevisionCache w (entered x y k) = get_or_load-IsRevisionCache x y k _ w
  Step-IsRevisionCache w (completed i r e) = completed-IsRevisionCache i r _ _ w e
  Step-IsRevisionCache w (canceled i) = cancel_call-IsRevisionCache _ i _ w refl
  Step-IsRevisionCache w (activated k b) = set_active-IsRevisionCache k b _ w

  -- Every cache that a well-formed one reaches, by any interleaving of entries, completions,
  -- cancelled waits and changes of preference, is well formed: the bytes are the sum of the entries'
  -- weights, both hard bounds hold, no key is held twice, and the loads in flight are the calls that
  -- are neither closed nor abandoned, each with a waiter and none for a resident key.
  pub Reaches-IsRevisionCache :
      {c d : RevisionCache A} → IsRevisionCache c → Reaches c d → IsRevisionCache d
  Reaches-IsRevisionCache w here = w
  Reaches-IsRevisionCache w (then_step r s) = Step-IsRevisionCache (Reaches-IsRevisionCache w r) s

  pub new_revision_cache-IsRevisionCache :
      (n b : ℤ) (c : RevisionCache A) → new_revision_cache n b ≡ inr c → IsRevisionCache c
  new_revision_cache-IsRevisionCache n b c h = record {
    store = record {
      distinct = ground arith;
      accounted = ground arith;
      entries_bounded = ground arith;
      bytes_bounded = ground arith;
    };
    inflight_distinct = ground arith;
    absent = λ k. λ i. λ f. ground arith;
    live = λ k. λ i. λ f. absurd (ground arith);
    reserved = λ i. λ l. λ f. λ o. λ a. ground arith;
    fresh = λ i. λ l. λ f. ground arith;
  }

  -- From a new cache, by any interleaving: two loads of one key that are neither closed nor
  -- abandoned are the same call, and the key is not resident.
  pub single_flight :
      (n b : ℤ) (c d : RevisionCache A) (i j : ℕ) (l m : RevisionCall A)
      → new_revision_cache n b ≡ inr c
      → Reaches c d
      → (lookup i d.calls ≡ some l) × (l.outcome ≡ none) × (l.abandoned ≡ false)
      → (lookup j d.calls ≡ some m) × (m.outcome ≡ none) × (m.abandoned ≡ false)
      → l.call_key ≡ m.call_key
      → (i ≡ j) × (lookup l.call_key d.entries ≡ none)
  single_flight n b c d i j l m h r (x, o, a) (y, p, q) k =
      let w = Reaches-IsRevisionCache (new_revision_cache-IsRevisionCache n b c h) r in
      let mine = w.reserved i l x o a in
      let other = w.reserved j m y p q in
      (same_value (sym mine ∙ ap (λ z. lookup z d.inflight) k ∙ other), w.absent l.call_key i mine)
