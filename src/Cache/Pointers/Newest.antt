-- ===== src/Cache/Pointers/Newest.antt =====
-- What an authoritative fill admits: the newest pointer of its own and of the updates it absorbed.
use policy_engine.Prelude.{
  arith, ◌<◌, ◌≡◌, ◌≢◌, refl, true, false, ◌&&◌, List, [], ◌∷◌, some, ◌⊎◌, inl, inr, if◌then◌else◌,
}
use mathlib.Core.Path.{subst}
use policy_engine.Prelude.Text.{text_eq, text_eq_iff}
use policy_engine.Cache.Pointers.{
  SlotKey, SlotKey_Eq, SlotPointer, FillState, update_pending_fill, valid_pointer, set_pending,
  set_conflicted,
}
use policy_engine.Cache.Pointers.History.{
  PointerCall, updates, begins, completes, cancels, pins, Supersedes,
}

abbrev pub Member : SlotPointer → List SlotPointer → Type 0
Member q [] = ⊥
Member q (u ∷ us) = (u ≡ q) ⊎ Member q us

-- q is one of the pointers and supersedes them all.
abbrev pub IsNewest : SlotPointer → List SlotPointer → Type 0
IsNewest q us = Member q us × ((u : SlotPointer) → Member u us → Supersedes q u)

-- Two different pointers of one generation.
abbrev pub Disagree : List SlotPointer → Type 0
Disagree us =
    (a b : SlotPointer) × Member a us × Member b us × (a.generation ≡ b.generation) × (a ≢ b)

abbrev pub absorb : FillState → List SlotPointer → FillState
absorb f [] = f
absorb f (u ∷ us) = absorb (update_pending_fill f u).1 us

-- What a fill tells of the pointers it has seen.
abbrev pub Absorbed : FillState → List SlotPointer → Type 0
Absorbed f us =
    ((f.conflicted ≡ true) × Disagree us)
    ⊎ ((f.conflicted ≡ false) × ((r : SlotPointer) × (f.pending ≡ some r) × IsNewest r us))

-- The valid updates of a key among the calls.
abbrev pub updates_for : SlotKey → List PointerCall → List SlotPointer
updates_for k [] = []
updates_for k (updates j p ∷ xs) =
    if SlotKey_Eq.beq j k && valid_pointer p then p ∷ updates_for k xs else updates_for k xs
updates_for k (begins j ∷ xs) = updates_for k xs
updates_for k (completes h p ∷ xs) = updates_for k xs
updates_for k (cancels h ∷ xs) = updates_for k xs
updates_for k (pins j ∷ xs) = updates_for k xs

absorb_conflicted :
    (us : List SlotPointer) (f : FillState) → f.conflicted ≡ true → (absorb f us).conflicted ≡ true
absorb_conflicted [] f h = h
absorb_conflicted (u ∷ us) f h = absorb_conflicted us (update_pending_fill f u).1 (ground arith)

pub same_pointer :
    (p q : SlotPointer) → p.generation ≡ q.generation → text_eq p.revision q.revision ≡ true → p ≡ q
same_pointer p q g r = ground (arith, text_eq_iff p.revision q.revision)

-- A pointer that the newest one already supersedes adds nothing.
behind_newer :
    (q u : SlotPointer) (us : List SlotPointer) (f : FillState)
    → q.generation < u.generation
    → Absorbed f (u ∷ us)
    → Absorbed f (q ∷ u ∷ us)
behind_newer q u us f l (inl (c, (a, b, m, n, g, d))) = inl (c, (a, b, inr m, inr n, g, d))
behind_newer q u us f l (inr (c, (r, h, (m, s)))) = inr (
  c,
  (
    r,
    h,
    (
      inr m,
      λ v. λ n. elim n [
        | inl e ↦ (let above = s u (inl refl) in subst (Supersedes r) e (ground arith))
        | inr n ↦ s v n
      ],
    ),
  ),
)

behind_first :
    (q u : SlotPointer) (us : List SlotPointer) (f : FillState)
    → (u.generation < q.generation) ⊎ (u ≡ q)
    → Absorbed f (q ∷ us)
    → Absorbed f (q ∷ u ∷ us)
behind_first q u us f l (inl (c, (a, b, m, n, g, d))) =
    inl (c, (a, b, ground arith, ground arith, g, d))
behind_first q u us f l (inr (c, (r, h, (m, s)))) = inr (
  c,
  (
    r,
    h,
    (
      ground arith,
      λ v. λ n. elim n [
        | inl e ↦ s v (inl e)
        | inr (inl e) ↦ (let above = s q (inl refl) in subst (Supersedes r) e (ground arith))
        | inr (inr n) ↦ s v (inr n)
      ],
    ),
  ),
)

-- The three things an update does to a fill that holds q.
update_cases :
    (q u : SlotPointer) (f : FillState)
    → f.conflicted ≡ false
    → f.pending ≡ some q
    → ((q.generation < u.generation) × ((update_pending_fill f u).1 ≡ set_pending f u))
      ⊎ (((u.generation < q.generation) ⊎ (u ≡ q)) × ((update_pending_fill f u).1 ≡ f))
      ⊎ ((q.generation ≡ u.generation) × (q ≢ u) × ((update_pending_fill f u).1 ≡ set_conflicted f))
update_cases q u f c h = ground (arith, text_eq_iff u.revision q.revision, same_pointer u q)

pub absorb-Absorbed :
    (us : List SlotPointer) (q : SlotPointer) (f : FillState)
    → f.conflicted ≡ false
    → f.pending ≡ some q
    → Absorbed (absorb f us) (q ∷ us)
absorb-Absorbed [] q f c h = ground arith
absorb-Absorbed (u ∷ us) q f c h = elim (update_cases q u f c h) [
  | inl (l, e) ↦
      rw (absorb, e)
        (behind_newer q u us (absorb (set_pending f u) us) l
          (absorb-Absorbed us u (set_pending f u) c refl))
  | inr (inl (l, e)) ↦
      rw (absorb, e) (behind_first q u us (absorb f us) l (absorb-Absorbed us q f c h))
  | inr (inr (g, d, e)) ↦
      rw (absorb, e)
        (inl (absorb_conflicted us (set_conflicted f) refl, (q, u, inl refl, inr (inl refl), g, d)))
]
