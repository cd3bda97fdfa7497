-- ===== src/Cache/Pointers/History.antt =====
-- The pointer cache over a sequence of calls, from whatever goroutines: each holds the mutex.
use policy_engine.Prelude.{
  arith, ℕ, ◌<◌, ◌≡◌, ◌≢◌, refl, List, [], ◌∷◌, Option, none, some, ◌⊎◌, inl, inr, Option-cases,
}
use mathlib.Core.Path.{subst}
use policy_engine.Prelude.Int.{ℤ}
use policy_engine.Prelude.Assoc.{lookup, erase, lookup-touch, lookup-drop_last}
use policy_engine.Cache.Pointers.{
  SlotKey, SlotKey_Eq, SlotPointer, FillState, AuthoritativeFill, PointerCache, PointerError,
  with_fills, update_resident, update_committed, update_found, begin_authoritative_fill,
  admit_pointer, admit_selected, select_newest_pointer, complete, complete_held, complete_current,
  complete_open, cancel, cancel_held, pin, pin_found, new_pointer_cache,
}
use policy_engine.Cache.Pointers.Laws.{
  IsPointerCache, update_committed-IsPointerCache, begin_authoritative_fill-IsPointerCache,
  complete-IsPointerCache, cancel-IsPointerCache, pin-IsPointerCache,
}

pub data PointerCall : Type 0 where
  updates : SlotKey → SlotPointer → PointerCall
  begins : SlotKey → PointerCall
  completes : AuthoritativeFill → SlotPointer → PointerCall
  cancels : AuthoritativeFill → PointerCall
  pins : SlotKey → PointerCall

abbrev pub run : PointerCall → PointerCache → PointerCache
run (updates k p) c = (update_committed k p c).1
run (begins k) c = (begin_authoritative_fill k c).1
run (completes h p) c = (complete h p c).1
run (cancels h) c = cancel h c
run (pins k) c = (pin k c).1

abbrev pub runs : List PointerCall → PointerCache → PointerCache
runs [] c = c
runs (x ∷ xs) c = runs xs (run x c)

pub run-IsPointerCache :
    (x : PointerCall) (c : PointerCache) → IsPointerCache c → IsPointerCache (run x c)
run-IsPointerCache (updates k p) c i = update_committed-IsPointerCache k p c i
run-IsPointerCache (begins k) c i = begin_authoritative_fill-IsPointerCache k c i
run-IsPointerCache (completes h p) c i = complete-IsPointerCache h p c i
run-IsPointerCache (cancels h) c i = cancel-IsPointerCache h c i
run-IsPointerCache (pins k) c i = pin-IsPointerCache k c i

-- A pointer cache that is well formed stays so under every sequence of updates, fills, completions,
-- cancellations and pins: no key is held twice or both resident and reserved, and the entries and
-- the reservations together stay within the limit.
pub runs-IsPointerCache :
    (xs : List PointerCall) (c : PointerCache) → IsPointerCache c → IsPointerCache (runs xs c)
runs-IsPointerCache [] c i = i
runs-IsPointerCache (x ∷ xs) c i = runs-IsPointerCache xs (run x c) (run-IsPointerCache x c i)

-- A new cache is well formed.
pub new_pointer_cache-IsPointerCache :
    (n : ℤ) (c : PointerCache) → new_pointer_cache n ≡ inr c → IsPointerCache c
new_pointer_cache-IsPointerCache n c h = record {
  entries_distinct = ground arith;
  fills_distinct = ground arith;
  disjoint = λ k. ground arith;
  bounded = ground arith;
}

-- The generation of q is larger, or it is the same pointer.
abbrev pub Supersedes : SlotPointer → SlotPointer → Type 0
Supersedes q p = (p.generation < q.generation) ⊎ (q ≡ p)

-- What the cache holds for a key is gone, or supersedes p.
abbrev pub StaysAbove : Option SlotPointer → SlotPointer → Type 0
StaysAbove none p = Unit
StaysAbove (some q) p = Supersedes q p

update_resident-StaysAbove :
    (j k : SlotKey) (old p q : SlotPointer) (c : PointerCache)
    → IsPointerCache c
    → lookup k c.entries ≡ some old
    → lookup j c.entries ≡ some q
    → StaysAbove (lookup j (update_resident k old p c).1.entries) q
update_resident-StaysAbove j k old p q c i h g = ground (
  arith,
  lookup-touch j k old c.entries i.entries_distinct,
  lookup-touch j k p c.entries i.entries_distinct,
  SlotKey_Eq.beq_iff k j,
)

admit_pointer-StaysAbove :
    (j k : SlotKey) (p q : SlotPointer) (c : PointerCache)
    → lookup k c.entries ≡ none
    → lookup j c.entries ≡ some q
    → StaysAbove (lookup j (admit_pointer k p c).entries) q
admit_pointer-StaysAbove j k p q c h g =
    ground (arith, lookup-drop_last j c.entries, SlotKey_Eq.beq_iff k j)

admit_selected-StaysAbove :
    (j k : SlotKey) (s : PointerError ⊎ SlotPointer) (q : SlotPointer) (c : PointerCache)
    → lookup k c.entries ≡ none
    → lookup j c.entries ≡ some q
    → StaysAbove (lookup j (admit_selected k s c).1.entries) q
admit_selected-StaysAbove j k (inl e) q c h g = rw g (inr refl)
admit_selected-StaysAbove j k (inr p) q c h g = admit_pointer-StaysAbove j k p q c h g

complete_open-StaysAbove :
    (j k : SlotKey) (f : FillState) (p q : SlotPointer) (c : PointerCache)
    → lookup k c.entries ≡ none
    → lookup j c.entries ≡ some q
    → StaysAbove (lookup j (complete_open k f p c).1.entries) q
complete_open-StaysAbove j k f p q c h g = ground (
  arith,
  admit_selected-StaysAbove j k (select_newest_pointer p f.pending) q
      (with_fills c (erase k c.fills)) h g,
)

complete_current-StaysAbove :
    (o : Option FillState) (i : ℕ) (j k : SlotKey) (p q : SlotPointer) (c : PointerCache)
    → IsPointerCache c
    → lookup k c.fills ≡ o
    → lookup j c.entries ≡ some q
    → StaysAbove (lookup j (complete_current o i k p c).1.entries) q
complete_current-StaysAbove none i j k p q c s h g = rw g (inr refl)
complete_current-StaysAbove (some f) i j k p q c s h g =
    ground (arith, s.disjoint k, complete_open-StaysAbove j k f p q c)

complete_held-StaysAbove :
    (o : Option ℕ) (j k : SlotKey) (p q : SlotPointer) (c : PointerCache)
    → IsPointerCache c
    → lookup j c.entries ≡ some q
    → StaysAbove (lookup j (complete_held o k p c).1.entries) q
complete_held-StaysAbove none j k p q c s g = rw g (inr refl)
complete_held-StaysAbove (some i) j k p q c s g =
    ground (arith, complete_current-StaysAbove (lookup k c.fills) i j k p q c s refl g)

cancel_held-entries :
    (o : Option ℕ) (k : SlotKey) (c : PointerCache) → (cancel_held o k c).entries ≡ c.entries
cancel_held-entries o k c = ground arith

update_found-StaysAbove :
    (o : Option SlotPointer) (j k : SlotKey) (p q : SlotPointer) (c : PointerCache)
    → IsPointerCache c
    → lookup k c.entries ≡ o
    → lookup j c.entries ≡ some q
    → StaysAbove (lookup j (update_found o k p c).1.entries) q
update_found-StaysAbove none j k p q c i h g = ground arith
update_found-StaysAbove (some old) j k p q c i h g = update_resident-StaysAbove j k old p q c i h g

begin_authoritative_fill-StaysAbove :
    (j k : SlotKey) (q : SlotPointer) (c : PointerCache)
    → lookup j c.entries ≡ some q
    → StaysAbove (lookup j (begin_authoritative_fill k c).1.entries) q
begin_authoritative_fill-StaysAbove j k q c g = ground (arith, lookup-drop_last j c.entries)

pin_found-StaysAbove :
    (o : Option SlotPointer) (j k : SlotKey) (q : SlotPointer) (c : PointerCache)
    → IsPointerCache c
    → lookup k c.entries ≡ o
    → lookup j c.entries ≡ some q
    → StaysAbove (lookup j (pin_found o k c).1.entries) q
pin_found-StaysAbove none j k q c i h g = rw g (inr refl)
pin_found-StaysAbove (some p) j k q c i h g =
    ground (arith, lookup-touch j k p c.entries i.entries_distinct, SlotKey_Eq.beq_iff k j)

run-StaysAbove :
    (x : PointerCall) (j : SlotKey) (q : SlotPointer) (c : PointerCache)
    → IsPointerCache c
    → lookup j c.entries ≡ some q
    → StaysAbove (lookup j (run x c).entries) q
run-StaysAbove (updates k p) j q c i g =
    ground (arith, update_found-StaysAbove (lookup k c.entries) j k p q c i refl g)
run-StaysAbove (begins k) j q c i g = begin_authoritative_fill-StaysAbove j k q c g
run-StaysAbove (completes h p) j q c i g = complete_held-StaysAbove h.held j h.fill_key p q c i g
run-StaysAbove (cancels h) j q c i g = rw (cancel_held-entries h.held h.fill_key c, g) (inr refl)
run-StaysAbove (pins k) j q c i g =
    ground (arith, pin_found-StaysAbove (lookup k c.entries) j k q c i refl g)

-- The key is resident after each of the calls.
abbrev pub StaysResident : SlotKey → List PointerCall → PointerCache → Type 0
StaysResident j [] c = Unit
StaysResident j (x ∷ xs) c = (lookup j (run x c).entries ≢ none) × StaysResident j xs (run x c)

-- While a key stays resident in a well-formed cache, whatever the calls, the pointer it holds is
-- the same one or has a larger generation: a pinned slot never moves back.
pub runs-Supersedes :
    (xs : List PointerCall) (j : SlotKey) (q : SlotPointer) (c : PointerCache)
    → IsPointerCache c
    → lookup j c.entries ≡ some q
    → StaysResident j xs c
    → (r : SlotPointer) × (lookup j (runs xs c).entries ≡ some r) × Supersedes r q
runs-Supersedes [] j q c i g s = (q, g, inr refl)
runs-Supersedes (x ∷ xs) j q c i g s = elim (Option-cases (lookup j (run x c).entries)) [
  | inl e ↦ absurd (s.0 e)
  | inr (p, e) ↦
      let above : Supersedes p q = subst (λ o. StaysAbove o q) e (run-StaysAbove x j q c i g) in
      let later = runs-Supersedes xs j p (run x c) (run-IsPointerCache x c i) e s.1 in
      (later.0, later.1, ground (arith, later.2))
]
