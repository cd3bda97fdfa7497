-- ===== src/Cache/Pointers/Fills.antt =====
-- An authoritative fill from its reservation to its completion, with any calls in between.
use policy_engine.Prelude.{
  arith, ℕ, ◌≡◌, ◌≢◌, refl, sym, ◌∙◌, true, List, [], ◌∷◌, Option, none, some, ◌⊎◌, inl, inr,
  ==_iff, Bool-cases, Option-cases,
}
use mathlib.Core.Path.{subst, ap}
use policy_engine.Prelude.Assoc.{lookup, lookup-insert, lookup-erase}
use policy_engine.Cache.Pointers.{
  SlotKey, SlotKey_Eq, SlotPointer, FillState, PointerCache, update_committed, update_found,
  update_pending_fill, begin_authoritative_fill, complete_held, complete_current, cancel_held, pin,
  valid_key, empty_fill,
}
use policy_engine.Cache.Pointers.Laws.{IsPointerCache}
use policy_engine.Cache.Pointers.History.{
  PointerCall, updates, begins, completes, cancels, pins, run, runs, run-IsPointerCache,
}
use policy_engine.Cache.Pointers.Newest.{absorb, updates_for}

-- The call neither completes nor cancels the reservation i of k.
abbrev pub Spares : SlotKey → ℕ → PointerCall → Type 0
Spares k i (completes h p) = (h.fill_key ≢ k) ⊎ (h.held ≢ some i)
Spares k i (cancels h) = (h.fill_key ≢ k) ⊎ (h.held ≢ some i)
Spares k i (updates j p) = Unit
Spares k i (begins j) = Unit
Spares k i (pins j) = Unit

abbrev pub AllSpare : SlotKey → ℕ → List PointerCall → Type 0
AllSpare k i [] = Unit
AllSpare k i (x ∷ xs) = Spares k i x × AllSpare k i xs

pub absorb_state : (us : List SlotPointer) (f : FillState) → (absorb f us).state ≡ f.state
absorb_state [] f = refl
absorb_state (u ∷ us) f = absorb_state us (update_pending_fill f u).1 ∙ ground arith

other_update :
    (o : Option SlotPointer) (j k : SlotKey) (p : SlotPointer) (f : FillState) (c : PointerCache)
    → j ≢ k
    → lookup k c.fills ≡ some f
    → lookup k (update_found o j p c).1.fills ≡ some f
other_update (some q) j k p f c d h = ground arith
other_update none j k p f c d h = elim (Option-cases (lookup j c.fills)) [
  | inl e ↦ rw e h
  | inr (g, e) ↦ rw e (
      ground (arith, lookup-insert k j (update_pending_fill g p).1 c.fills, SlotKey_Eq.beq_iff j k))
]

own_update :
    (k : SlotKey) (p : SlotPointer) (f : FillState) (c : PointerCache)
    → lookup k c.entries ≡ none
    → lookup k c.fills ≡ some f
    → lookup k (update_found (lookup k c.entries) k p c).1.fills ≡ some (update_pending_fill f p).1
own_update k p f c g h =
    rw (g, h)
      (ground
        (arith, lookup-insert k k (update_pending_fill f p).1 c.fills, SlotKey_Eq.beq_iff k k))

update_fill :
    (j k : SlotKey) (p : SlotPointer) (f : FillState) (c : PointerCache)
    → valid_key k ≡ true
    → lookup k c.entries ≡ none
    → lookup k c.fills ≡ some f
    → lookup k (update_committed j p c).1.fills ≡ some (absorb f (updates_for k (updates j p ∷ [])))
update_fill j k p f c v g h = elim (Bool-cases (SlotKey_Eq.beq j k)) [
  | inl e ↦
      (let same : j ≡ k = ground (arith, SlotKey_Eq.beq_iff j k) in
        subst
          (λ i.
            lookup k (update_committed i p c).1.fills
            ≡ some (absorb f (updates_for k (updates i p ∷ []))))
          (sym same) (ground (arith, own_update k p f c g h, SlotKey_Eq.beq_iff k k)))
  | inr e ↦ ground (arith, SlotKey_Eq.beq_iff j k, other_update (lookup j c.entries) j k p f c)
]

begin_fill :
    (j k : SlotKey) (f : FillState) (c : PointerCache)
    → lookup k c.fills ≡ some f
    → lookup k (begin_authoritative_fill j c).1.fills ≡ some f
begin_fill j k f c h =
    ground (arith, lookup-insert k j (empty_fill c.next_state) c.fills, SlotKey_Eq.beq_iff j k)

complete_current_fill :
    (o : Option FillState) (i : ℕ) (j k : SlotKey) (p : SlotPointer) (f : FillState)
    (c : PointerCache)
    → IsPointerCache c
    → lookup j c.fills ≡ o
    → (j ≢ k) ⊎ (i ≢ f.state)
    → lookup k c.fills ≡ some f
    → lookup k (complete_current o i j p c).1.fills ≡ some f
complete_current_fill none i j k p f c s e d h = h
complete_current_fill (some g) i j k p f c s e d h =
    ground
      (arith, lookup-erase k j c.fills s.fills_distinct, SlotKey_Eq.beq_iff j k, ==_iff g.state i)

complete_held_fill :
    (o : Option ℕ) (j k : SlotKey) (p : SlotPointer) (f : FillState) (c : PointerCache)
    → IsPointerCache c
    → (j ≢ k) ⊎ (o ≢ some f.state)
    → lookup k c.fills ≡ some f
    → lookup k (complete_held o j p c).1.fills ≡ some f
complete_held_fill none j k p f c s d h = h
complete_held_fill (some i) j k p f c s d h =
    ground (arith, complete_current_fill (lookup j c.fills) i j k p f c s refl)

cancel_held_fill :
    (o : Option ℕ) (j k : SlotKey) (f : FillState) (c : PointerCache)
    → IsPointerCache c
    → (j ≢ k) ⊎ (o ≢ some f.state)
    → lookup k c.fills ≡ some f
    → lookup k (cancel_held o j c).fills ≡ some f
cancel_held_fill none j k f c s d h = h
cancel_held_fill (some i) j k f c s d h =
    ground (arith, lookup-erase k j c.fills s.fills_distinct, SlotKey_Eq.beq_iff j k)

pin_fills : (k : SlotKey) (c : PointerCache) → (pin k c).1.fills ≡ c.fills
pin_fills k c = ground arith

run_fill :
    (x : PointerCall) (k : SlotKey) (f : FillState) (c : PointerCache)
    → IsPointerCache c
    → valid_key k ≡ true
    → Spares k f.state x
    → lookup k c.fills ≡ some f
    → lookup k (run x c).fills ≡ some (absorb f (updates_for k (x ∷ [])))
run_fill (updates j p) k f c i v s h = update_fill j k p f c v (ground (arith, i.disjoint k)) h
run_fill (begins j) k f c i v s h = begin_fill j k f c h
run_fill (completes g p) k f c i v s h = complete_held_fill g.held g.fill_key k p f c i s h
run_fill (cancels g) k f c i v s h = cancel_held_fill g.held g.fill_key k f c i s h
run_fill (pins j) k f c i v s h = ap (lookup k) (pin_fills j c) ∙ h

absorb-updates_for :
    (x : PointerCall) (xs : List PointerCall) (k : SlotKey) (f : FillState)
    → absorb f (updates_for k (x ∷ xs))
      ≡ absorb (absorb f (updates_for k (x ∷ []))) (updates_for k xs)
absorb-updates_for (updates j p) xs k f = ground arith
absorb-updates_for (begins j) xs k f = refl
absorb-updates_for (completes g p) xs k f = refl
absorb-updates_for (cancels g) xs k f = refl
absorb-updates_for (pins j) xs k f = refl

pub runs_fill :
    (xs : List PointerCall) (k : SlotKey) (f : FillState) (c : PointerCache)
    → IsPointerCache c
    → valid_key k ≡ true
    → AllSpare k f.state xs
    → lookup k c.fills ≡ some f
    → lookup k (runs xs c).fills ≡ some (absorb f (updates_for k xs))
runs_fill [] k f c i v s h = h
runs_fill (x ∷ xs) k f c i v s h =
    let g = absorb f (updates_for k (x ∷ [])) in
    let spare : AllSpare k g.state xs =
      subst (λ n. AllSpare k n xs) (sym (absorb_state (updates_for k (x ∷ [])) f)) s.1 in
    runs_fill xs k g (run x c) (run-IsPointerCache x c i) v spare (run_fill x k f c i v s.0 h)
    ∙ ap some (sym (absorb-updates_for x xs k f))
