-- ===== src/Cache/Pointers/Completion.antt =====
-- What the completion of an authoritative fill admits, whatever calls came since its reservation.
use policy_engine.Prelude.{
  arith, ℕ, ◌+◌, ◌<◌, ◌≡◌, ◌≢◌, refl, true, false, List, [], ◌∷◌, Option, none, some, ◌⊎◌, inl, inr,
  length, ◌==◌,
}
use mathlib.Core.Path.{subst}
use policy_engine.Prelude.Text.{text_eq_iff}
use policy_engine.Prelude.Assoc.{lookup, erase, lookup-insert, length-erase}
use policy_engine.Cache.Pointers.{
  SlotKey, SlotKey_Eq, SlotPointer, FillState, PointerCache, PointerError, with_fills,
  begin_authoritative_fill, admit_pointer, admit_selected, select_newest_pointer, complete,
  complete_open, valid_key, valid_pointer, empty_fill, set_pending, pointer_conflict,
}
use policy_engine.Cache.Pointers.Laws.{
  IsPointerCache, begin_authoritative_fill-IsPointerCache, admit_pointer-room,
}
use policy_engine.Cache.Pointers.History.{PointerCall, runs, runs-IsPointerCache, Supersedes}
use policy_engine.Cache.Pointers.Newest.{
  IsNewest, Disagree, absorb, Absorbed, absorb-Absorbed, updates_for, same_pointer,
}
use policy_engine.Cache.Pointers.Fills.{AllSpare, absorb_state, runs_fill}

-- Either the newest of p and the updates is admitted, or two of them conflict and nothing is.
abbrev pub Settled :
    SlotKey → SlotPointer → List SlotPointer → Option PointerError × PointerCache → Type 0
Settled k p us (e, c) =
    ((e ≡ none) × ((q : SlotPointer) × (lookup k c.entries ≡ some q) × IsNewest q (p ∷ us)))
    ⊎ ((e ≡ some pointer_conflict) × (lookup k c.entries ≡ none) × Disagree (p ∷ us))

-- What a reservation holds after the updates.
abbrev Holds : FillState → List SlotPointer → Type 0
Holds f [] = (f.conflicted ≡ false) × (f.pending ≡ none)
Holds f (u ∷ us) = Absorbed f (u ∷ us)

absorb-Holds : (i : ℕ) (us : List SlotPointer) → Holds (absorb (empty_fill i) us) us
absorb-Holds i [] = (refl, refl)
absorb-Holds i (u ∷ us) = absorb-Absorbed us u (set_pending (empty_fill i) u) refl refl

admitted :
    (k : SlotKey) (q : SlotPointer) (c : PointerCache)
    → length c.entries + length c.fills < c.max_entries
    → lookup k (admit_pointer k q c).entries ≡ some q
admitted k q c b = rw (admit_pointer-room k q c b) (ground (arith, SlotKey_Eq.beq_iff k k))

-- The newest of p and of what r is the newest of.
select_cases :
    (p r : SlotPointer)
    → ((select_newest_pointer p (some r) ≡ inr p) × Supersedes p r)
      ⊎ ((select_newest_pointer p (some r) ≡ inr r) × Supersedes r p)
      ⊎ ((select_newest_pointer p (some r) ≡ inl pointer_conflict)
          × (p.generation ≡ r.generation)
          × (p ≢ r))
select_cases p r = ground (arith, text_eq_iff p.revision r.revision, same_pointer p r)

select-Settled :
    (k : SlotKey) (p r : SlotPointer) (us : List SlotPointer) (c : PointerCache)
    → lookup k c.entries ≡ none
    → length c.entries + length c.fills < c.max_entries
    → IsNewest r us
    → Settled k p us (admit_selected k (select_newest_pointer p (some r)) c)
select-Settled k p r us c g b (m, s) = elim (select_cases p r) [
  | inl (e, a) ↦ rw e (
      inl (
        refl,
        (
          p,
          admitted k p c b,
          (
            inl refl,
            λ u. λ n. elim n [ inl same ↦ inr same | inr n ↦ (let later = s u n in ground arith) ],
          ),
        ),
      ))
  | inr (inl (e, a)) ↦ rw e (
      inl (
        refl,
        (
          r,
          admitted k r c b,
          (inr m, λ u. λ n. elim n [ inl same ↦ subst (Supersedes r) same a | inr n ↦ s u n ]),
        ),
      ))
  | inr (inr (e, same, d)) ↦ rw e (inr (refl, g, (p, r, inl refl, inr m, same, d)))
]

Absorbed-Settled :
    (k : SlotKey) (f : FillState) (p : SlotPointer) (us : List SlotPointer) (c : PointerCache)
    → valid_pointer p ≡ true
    → lookup k c.entries ≡ none
    → length c.entries + length (erase k c.fills) < c.max_entries
    → Absorbed f us
    → Settled k p us (complete_open k f p c)
Absorbed-Settled k f p us c v g b (inl (x, (r, t, m, n, a, d))) =
    rw (v, x) (inr (refl, g, (r, t, inr m, inr n, a, d)))
Absorbed-Settled k f p us c v g b (inr (x, (r, h, w))) =
    rw (v, x, h) (select-Settled k p r us (with_fills c (erase k c.fills)) g b w)

complete_open-Settled :
    (us : List SlotPointer) (k : SlotKey) (f : FillState) (p : SlotPointer) (c : PointerCache)
    → valid_pointer p ≡ true
    → lookup k c.entries ≡ none
    → length c.entries + length (erase k c.fills) < c.max_entries
    → Holds f us
    → Settled k p us (complete_open k f p c)
complete_open-Settled [] k f p c v g b (x, h) =
    rw (v, x, h)
      (inl (
        refl,
        (p, admitted k p (with_fills c (erase k c.fills)) b, (inl refl, λ u. λ n. ground arith)),
      ))
complete_open-Settled (u ∷ us) k f p c v g b a = Absorbed-Settled k f p (u ∷ us) c v g b a

-- What a reservation that was granted says.
begun :
    (k : SlotKey) (i : ℕ) (c d : PointerCache)
    → begin_authoritative_fill k c ≡ (inr (record { fill_key = k; held = some i }), d)
    → (valid_key k ≡ true) × (lookup k d.fills ≡ some (empty_fill i))
begun k i c d e =
    ground (arith, SlotKey_Eq.beq_iff k k, lookup-insert k k (empty_fill c.next_state) c.fills)

==_refl : (a b : ℕ) → a ≡ b → (a == b) ≡ true
==_refl a b e = ground arith

-- A fill reserved for k in a well-formed cache, then any calls but the completion or cancellation of
-- that fill, then its completion with a valid pointer p: either it admits, as k's pointer, the newest
-- of p and of all valid updates of k in between (every one of them has a smaller generation or is
-- the same pointer), or two of these pointers differ at one generation, the completion reports the
-- conflict and k is not resident.
pub complete-Settled :
    (k : SlotKey) (p : SlotPointer) (xs : List PointerCall) (i : ℕ) (c d : PointerCache)
    → IsPointerCache c
    → begin_authoritative_fill k c ≡ (inr (record { fill_key = k; held = some i }), d)
    → AllSpare k i xs
    → valid_pointer p ≡ true
    → Settled k p
        (updates_for k xs)
        (complete (record { fill_key = k; held = some i }) p (runs xs d))
complete-Settled k p xs i c d w e s v =
    let started : IsPointerCache d =
      subst (λ r. IsPointerCache r.1) e (begin_authoritative_fill-IsPointerCache k c w) in
    let open_fill = begun k i c d e in
    let us = updates_for k xs in
    let f = absorb (empty_fill i) us in
    let z = runs xs d in
    let ended : IsPointerCache z = runs-IsPointerCache xs d started in
    let found : lookup k z.fills ≡ some f =
      runs_fill xs k (empty_fill i) d started open_fill.0 s open_fill.1 in
    let absent : lookup k z.entries ≡ none = ground (arith, ended.disjoint k) in
    let room : length z.entries + length (erase k z.fills) < z.max_entries =
      omega (arith, ended.bounded, length-erase k f z.fills found) in
    rw (open_fill.0, found, ==_refl (f.state) i (absorb_state us (empty_fill i)))
      (complete_open-Settled us k f p z v absent room (absorb-Holds i us))
