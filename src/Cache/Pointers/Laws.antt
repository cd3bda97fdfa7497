-- ===== src/Cache/Pointers/Laws.antt =====
-- The pointer cache over its whole history: its bound, its invariant and its generations.
use policy_engine.Prelude.{
  arith, ℕ, ◌+◌, ◌≤◌, ◌<◌, ◌≡◌, refl, ◌∷◌, Option, none, some, ◌⊎◌, inl, inr, length, Option-cases,
}
use policy_engine.Prelude.Assoc.{
  lookup, insert, erase, touch, Distinct, length-drop_last, lookup-insert, Distinct-insert,
  length-insert_fresh, length-insert_held, lookup-erase, Distinct-erase, length-erase,
  Distinct-touch, lookup-touch, lookup-drop_last, Distinct-drop_last,
}
use policy_engine.Cache.Pointers.{
  SlotKey, SlotKey_Eq, SlotPointer, FillState, AuthoritativeFill, PointerCache, with_entries,
  with_fills, evict_oldest, update_committed, update_found, update_pending_fill,
  begin_authoritative_fill, reserve, admit_pointer, complete, complete_held, complete_current,
  complete_open, cancel, cancel_current, pin, pin_found, empty_fill,
}

-- No key twice, no key both resident and reserved, and the bound.
pub record IsPointerCache (c : PointerCache) : Type 0 where
  pub entries_distinct : Distinct c.entries
  pub fills_distinct : Distinct c.fills
  pub disjoint : (k : SlotKey) → (lookup k c.entries ≡ none) ⊎ (lookup k c.fills ≡ none)
  pub bounded : length c.entries + length c.fills ≤ c.max_entries

touch-IsPointerCache :
    (k : SlotKey) (p q : SlotPointer) (c : PointerCache)
    → IsPointerCache c
    → lookup k c.entries ≡ some q
    → IsPointerCache (with_entries c (touch k p c.entries))
touch-IsPointerCache k p q c i h = record {
  entries_distinct = Distinct-touch k p c.entries i.entries_distinct;
  fills_distinct = i.fills_distinct;
  disjoint = λ j. ground (
    arith,
    lookup-touch j k p c.entries i.entries_distinct,
    i.disjoint j,
    i.disjoint k,
    SlotKey_Eq.beq_iff k j,
  );
  bounded = omega (arith, i.bounded, length-erase k q c.entries h);
}

insert-IsPointerCache :
    (k : SlotKey) (f g : FillState) (c : PointerCache)
    → IsPointerCache c
    → lookup k c.fills ≡ some g
    → IsPointerCache (with_fills c (insert k f c.fills))
insert-IsPointerCache k f g c i h = record {
  entries_distinct = i.entries_distinct;
  fills_distinct = Distinct-insert k f c.fills i.fills_distinct;
  disjoint = λ j.
      ground
        (arith, lookup-insert j k f c.fills, i.disjoint j, i.disjoint k, SlotKey_Eq.beq_iff k j);
  bounded = omega (arith, i.bounded, length-insert_held k f g c.fills h);
}

pub erase-IsPointerCache :
    (k : SlotKey) (g : FillState) (c : PointerCache)
    → IsPointerCache c
    → lookup k c.fills ≡ some g
    → IsPointerCache (with_fills c (erase k c.fills))
erase-IsPointerCache k g c i h = record {
  entries_distinct = i.entries_distinct;
  fills_distinct = Distinct-erase k c.fills i.fills_distinct;
  disjoint = λ j. ground (arith, lookup-erase j k c.fills i.fills_distinct, i.disjoint j);
  bounded = omega (arith, i.bounded, length-erase k g c.fills h);
}

evict_oldest-IsPointerCache :
    (c : PointerCache) → IsPointerCache c → IsPointerCache (evict_oldest c)
evict_oldest-IsPointerCache c i = record {
  entries_distinct = Distinct-drop_last c.entries i.entries_distinct;
  fills_distinct = i.fills_distinct;
  disjoint = λ j. ground (arith, lookup-drop_last j c.entries, i.disjoint j);
  bounded = omega (arith, i.bounded, length-drop_last c.entries);
}

reserve-IsPointerCache :
    (k : SlotKey) (c : PointerCache)
    → IsPointerCache c
    → lookup k c.entries ≡ none
    → lookup k c.fills ≡ none
    → length c.entries + length c.fills < c.max_entries
    → IsPointerCache (reserve k c).1
reserve-IsPointerCache k c i h g b = record {
  entries_distinct = i.entries_distinct;
  fills_distinct = Distinct-insert k (empty_fill c.next_state) c.fills i.fills_distinct;
  disjoint = λ j. ground (
    arith,
    lookup-insert j k (empty_fill c.next_state) c.fills,
    i.disjoint j,
    SlotKey_Eq.beq_iff k j,
  );
  bounded = omega (arith, b, length-insert_fresh k (empty_fill c.next_state) c.fills g);
}

pub admit_pointer-room :
    (k : SlotKey) (p : SlotPointer) (c : PointerCache)
    → length c.entries + length c.fills < c.max_entries
    → admit_pointer k p c ≡ with_entries c ((k, p) ∷ c.entries)
admit_pointer-room k p c b = ground arith

push-IsPointerCache :
    (k : SlotKey) (p : SlotPointer) (c : PointerCache)
    → IsPointerCache c
    → lookup k c.entries ≡ none
    → lookup k c.fills ≡ none
    → length c.entries + length c.fills < c.max_entries
    → IsPointerCache (with_entries c ((k, p) ∷ c.entries))
push-IsPointerCache k p c i h g b = record {
  entries_distinct = (h, i.entries_distinct);
  fills_distinct = i.fills_distinct;
  disjoint = λ j. ground (arith, i.disjoint j, SlotKey_Eq.beq_iff k j);
  bounded = omega (arith, b);
}

admit_pointer-IsPointerCache :
    (k : SlotKey) (p : SlotPointer) (c : PointerCache)
    → IsPointerCache c
    → lookup k c.entries ≡ none
    → lookup k c.fills ≡ none
    → length c.entries + length c.fills < c.max_entries
    → IsPointerCache (admit_pointer k p c)
admit_pointer-IsPointerCache k p c i h g b =
    rw (admit_pointer-room k p c b) (push-IsPointerCache k p c i h g b)

update_found-IsPointerCache :
    (o : Option SlotPointer) (k : SlotKey) (p : SlotPointer) (c : PointerCache)
    → IsPointerCache c
    → lookup k c.entries ≡ o
    → IsPointerCache (update_found o k p c).1
update_found-IsPointerCache (some q) k p c i h =
    ground (arith, touch-IsPointerCache k q q c i h, touch-IsPointerCache k p q c i h)
update_found-IsPointerCache none k p c i h = elim (Option-cases (lookup k c.fills)) [
  | inl e ↦ rw e i
  | inr (f, e) ↦ rw e (insert-IsPointerCache k (update_pending_fill f p).1 f c i e)
]

pub update_committed-IsPointerCache :
    (k : SlotKey) (p : SlotPointer) (c : PointerCache)
    → IsPointerCache c
    → IsPointerCache (update_committed k p c).1
update_committed-IsPointerCache k p c i =
    ground (arith, update_found-IsPointerCache (lookup k c.entries) k p c i refl)

pub begin_authoritative_fill-IsPointerCache :
    (k : SlotKey) (c : PointerCache)
    → IsPointerCache c
    → IsPointerCache (begin_authoritative_fill k c).1
begin_authoritative_fill-IsPointerCache k c i = ground (
  arith,
  reserve-IsPointerCache k c i,
  reserve-IsPointerCache k (evict_oldest c) (evict_oldest-IsPointerCache c i),
  lookup-drop_last k c.entries,
  length-drop_last c.entries,
  i.bounded,
)

complete_open-IsPointerCache :
    (k : SlotKey) (f : FillState) (p : SlotPointer) (c : PointerCache)
    → IsPointerCache c
    → lookup k c.fills ≡ some f
    → IsPointerCache (complete_open k f p c).1
complete_open-IsPointerCache k f p c i h =
    let closed : IsPointerCache (with_fills c (erase k c.fills)) = erase-IsPointerCache k f c i h in
    let gone : lookup k (erase k c.fills) ≡ none =
      ground (arith, lookup-erase k k c.fills i.fills_distinct, SlotKey_Eq.beq_iff k k) in
    let absent : lookup k c.entries ≡ none = ground (arith, i.disjoint k) in
    let room : length c.entries + length (erase k c.fills) < c.max_entries =
      omega (arith, i.bounded, length-erase k f c.fills h) in
    ground (
      arith,
      admit_pointer-IsPointerCache k p (with_fills c (erase k c.fills)) closed absent gone room,
      λ (q : SlotPointer).
          admit_pointer-IsPointerCache k q (with_fills c (erase k c.fills)) closed absent gone room,
    )

complete_current-IsPointerCache :
    (o : Option FillState) (i : ℕ) (k : SlotKey) (p : SlotPointer) (c : PointerCache)
    → IsPointerCache c
    → lookup k c.fills ≡ o
    → IsPointerCache (complete_current o i k p c).1
complete_current-IsPointerCache none i k p c s h = s
complete_current-IsPointerCache (some f) i k p c s h =
    ground (arith, complete_open-IsPointerCache k f p c s h)

complete_held-IsPointerCache :
    (i : ℕ) (k : SlotKey) (p : SlotPointer) (c : PointerCache)
    → IsPointerCache c
    → IsPointerCache (complete_held (some i) k p c).1
complete_held-IsPointerCache i k p c s =
    ground (arith, complete_current-IsPointerCache (lookup k c.fills) i k p c s refl)

pub complete-IsPointerCache :
    (h : AuthoritativeFill) (p : SlotPointer) (c : PointerCache)
    → IsPointerCache c
    → IsPointerCache (complete h p c).1
complete-IsPointerCache h p c i =
    let k = h.fill_key in
    elim (Option-cases h.held) [
      | inl e ↦ rw e i
      | inr (n, e) ↦ rw e (complete_held-IsPointerCache n k p c i)
    ]

cancel_current-IsPointerCache :
    (o : Option FillState) (i : ℕ) (k : SlotKey) (c : PointerCache)
    → IsPointerCache c
    → lookup k c.fills ≡ o
    → IsPointerCache (cancel_current o i k c)
cancel_current-IsPointerCache none i k c s h = s
cancel_current-IsPointerCache (some f) i k c s h = ground (arith, erase-IsPointerCache k f c s h)

pub cancel-IsPointerCache :
    (h : AuthoritativeFill) (c : PointerCache) → IsPointerCache c → IsPointerCache (cancel h c)
cancel-IsPointerCache h c i =
    let k = h.fill_key in
    elim (Option-cases h.held) [
      | inl e ↦ rw e i
      | inr (n, e) ↦ rw e (cancel_current-IsPointerCache (lookup k c.fills) n k c i refl)
    ]

pin_found-IsPointerCache :
    (o : Option SlotPointer) (k : SlotKey) (c : PointerCache)
    → IsPointerCache c
    → lookup k c.entries ≡ o
    → IsPointerCache (pin_found o k c).1
pin_found-IsPointerCache none k c i h = i
pin_found-IsPointerCache (some q) k c i h = touch-IsPointerCache k q q c i h

pub pin-IsPointerCache :
    (k : SlotKey) (c : PointerCache) → IsPointerCache c → IsPointerCache (pin k c).1
pin-IsPointerCache k c i = ground (arith, pin_found-IsPointerCache (lookup k c.entries) k c i refl)
