-- ===== src/Cache/Pointers.antt =====
-- internal/cache/pointers.go: the bounded cache of committed slot pointers. The map of entries and
-- the recency list hold the same entries, so one list models both: front first, one pair for each
-- key. A fill reservation is compared by the address of its state; an address is a number here,
-- and `next_state` is the next fresh one. Every operation runs under the cache's mutex, so it is
-- one step.
pub mod Laws
pub mod History
pub mod Newest
pub mod Fills
pub mod Completion
mod Tests
use policy_engine.Prelude.{
  arith, ℕ, suc, ◌+◌, ◌≡◌, ◌↔◌, Bool, true, false, ◌&&◌, ◌||◌, not, List, [], ◌∷◌, Option, none,
  some, ◌⊎◌, inl, inr, if◌then◌else◌, length, leb, ltb, ◌==◌,
}
use policy_engine.Prelude.Int.{ℤ, pos, negsuc}
use policy_engine.Prelude.Eq.{Eq}
use policy_engine.Prelude.Text.{Text, is_empty, text_eq, text_eq_iff}
use policy_engine.Prelude.Assoc.{lookup, insert, erase, touch, drop_last}

pub record SlotKey : Type 0 where
  pub namespace : Text
  pub slot : Text

pub record SlotPointer : Type 0 where
  pub revision : Text
  pub generation : ℕ

pub record RevisionPin : Type 0 where
  pub pin_key : SlotKey
  pub pinned : SlotPointer

-- `pending` is `none` where the source's `hasPending` is false.
pub record FillState : Type 0 where
  pub state : ℕ
  pub pending : Option SlotPointer
  pub conflicted : Bool

-- `held` is `none` for the zero reservation.
pub record AuthoritativeFill : Type 0 where
  pub fill_key : SlotKey
  pub held : Option ℕ

pub data PointerError : Type 0 where
  invalid_limits invalid_slot_key invalid_slot_pointer stale_pointer pointer_conflict : PointerError
  fill_hit fill_busy fill_limit fill_closed : PointerError

abbrev slot_eq : SlotKey → SlotKey → Bool
slot_eq a b = text_eq a.namespace b.namespace && text_eq a.slot b.slot

slot_eq_iff : (a b : SlotKey) → (slot_eq a b ≡ true) ↔ (a ≡ b)
slot_eq_iff a b = ground (arith, text_eq_iff a.namespace b.namespace, text_eq_iff a.slot b.slot)

instance pub SlotKey_Eq : Eq SlotKey
SlotKey_Eq = record { beq = slot_eq; beq_iff = slot_eq_iff }

pub record PointerCache : Type 0 where
  pub max_entries : ℕ
  pub entries : List (SlotKey × SlotPointer)
  pub fills : List (SlotKey × FillState)
  pub next_state : ℕ

abbrev pub valid_key : SlotKey → Bool
valid_key k = not (is_empty k.namespace) && not (is_empty k.slot)

abbrev pub valid_pointer : SlotPointer → Bool
valid_pointer p = not (is_empty p.revision) && not (p.generation == 0)

abbrev pub new_slot_key : Text → Text → PointerError ⊎ SlotKey
new_slot_key n s =
    if is_empty n || is_empty s
    then inl invalid_slot_key
    else inr (record { namespace = n; slot = s })

abbrev pub new_slot_pointer : Text → ℕ → PointerError ⊎ SlotPointer
new_slot_pointer r g =
    if is_empty r || g == 0
    then inl invalid_slot_pointer
    else inr (record { revision = r; generation = g })

abbrev pub new_pointer_cache : ℤ → PointerError ⊎ PointerCache
new_pointer_cache (negsuc n) = inl invalid_limits
new_pointer_cache (pos n) =
    inr (record { max_entries = n; entries = []; fills = []; next_state = 0 })

abbrev pub with_entries : PointerCache → List (SlotKey × SlotPointer) → PointerCache
with_entries c m = record {
  max_entries = c.max_entries;
  entries = m;
  fills = c.fills;
  next_state = c.next_state;
}

abbrev pub with_fills : PointerCache → List (SlotKey × FillState) → PointerCache
with_fills c m = record {
  max_entries = c.max_entries;
  entries = c.entries;
  fills = m;
  next_state = c.next_state;
}

abbrev pub evict_oldest : PointerCache → PointerCache
evict_oldest c = with_entries c (drop_last c.entries)

abbrev pub update_resident :
    SlotKey → SlotPointer → SlotPointer → PointerCache → Option PointerError × PointerCache
update_resident k old p c =
    if ltb p.generation old.generation
    then (some stale_pointer, c)
    else if p.generation == old.generation && not (text_eq p.revision old.revision)
    then (some pointer_conflict, c)
    else if p.generation == old.generation
    then (none, with_entries c (touch k old c.entries))
    else (none, with_entries c (touch k p c.entries))

abbrev pub set_pending : FillState → SlotPointer → FillState
set_pending f p = record { state = f.state; pending = some p; conflicted = f.conflicted }

abbrev pub set_conflicted : FillState → FillState
set_conflicted f = record { state = f.state; pending = f.pending; conflicted = true }

abbrev pub update_against : SlotPointer → FillState → SlotPointer → Option PointerError × FillState
update_against q f p =
    if ltb q.generation p.generation
    then (none, set_pending f p)
    else if ltb p.generation q.generation
    then (some stale_pointer, f)
    else if not (text_eq p.revision q.revision)
    then (some pointer_conflict, set_conflicted f)
    else (none, f)

abbrev pub update_unconflicted :
    Option SlotPointer → FillState → SlotPointer → Option PointerError × FillState
update_unconflicted none f p = (none, set_pending f p)
update_unconflicted (some q) f p = update_against q f p

abbrev pub update_pending_fill : FillState → SlotPointer → Option PointerError × FillState
update_pending_fill f p =
    if f.conflicted then (some pointer_conflict, f) else update_unconflicted f.pending f p

abbrev pub store_fill :
    SlotKey → PointerCache → Option PointerError × FillState → Option PointerError × PointerCache
store_fill k c (e, f) = (e, with_fills c (insert k f c.fills))

abbrev pub update_absent :
    Option FillState → SlotKey → SlotPointer → PointerCache → Option PointerError × PointerCache
update_absent none k p c = (none, c)
update_absent (some f) k p c = store_fill k c (update_pending_fill f p)

abbrev pub update_found :
    Option SlotPointer → SlotKey → SlotPointer → PointerCache → Option PointerError × PointerCache
update_found (some old) k p c = update_resident k old p c
update_found none k p c = update_absent (lookup k c.fills) k p c

abbrev pub update_committed :
    SlotKey → SlotPointer → PointerCache → Option PointerError × PointerCache
update_committed k p c =
    if not (valid_key k)
    then (some invalid_slot_key, c)
    else if not (valid_pointer p)
    then (some invalid_slot_pointer, c)
    else update_found (lookup k c.entries) k p c

abbrev pub is_some : {A : Type 0} → Option A → Bool
is_some none = false
is_some (some x) = true

abbrev pub empty_fill : ℕ → FillState
empty_fill i = record { state = i; pending = none; conflicted = false }

abbrev pub reserve : SlotKey → PointerCache → (PointerError ⊎ AuthoritativeFill) × PointerCache
reserve k c = (
  inr (record { fill_key = k; held = some c.next_state }),
  record {
    max_entries = c.max_entries;
    entries = c.entries;
    fills = insert k (empty_fill c.next_state) c.fills;
    next_state = suc c.next_state;
  },
)

abbrev pub begin_authoritative_fill :
    SlotKey → PointerCache → (PointerError ⊎ AuthoritativeFill) × PointerCache
begin_authoritative_fill k c =
    if not (valid_key k)
    then (inl invalid_slot_key, c)
    else if is_some (lookup k c.entries)
    then (inl fill_hit, c)
    else if c.max_entries == 0
    then (inl fill_limit, c)
    else if is_some (lookup k c.fills)
    then (inl fill_busy, c)
    else if (length c.entries + length c.fills) == c.max_entries
    then (if (length c.entries) == 0 then (inl fill_limit, c) else reserve k (evict_oldest c))
    else reserve k c

abbrev pub admit_pointer : SlotKey → SlotPointer → PointerCache → PointerCache
admit_pointer k p c =
    if c.max_entries == 0
    then c
    else if (length c.entries + length c.fills) == c.max_entries
    then with_entries (evict_oldest c) ((k, p) ∷ drop_last c.entries)
    else with_entries c ((k, p) ∷ c.entries)

abbrev pub select_newest_pointer : SlotPointer → Option SlotPointer → PointerError ⊎ SlotPointer
select_newest_pointer p none = inr p
select_newest_pointer p (some q) =
    if ltb q.generation p.generation
    then inr p
    else if ltb p.generation q.generation
    then inr q
    else if not (text_eq p.revision q.revision)
    then inl pointer_conflict
    else inr p

abbrev pub admit_selected :
    SlotKey → PointerError ⊎ SlotPointer → PointerCache → Option PointerError × PointerCache
admit_selected k (inl e) c = (some e, c)
admit_selected k (inr q) c = (none, admit_pointer k q c)

abbrev pub complete_open :
    SlotKey → FillState → SlotPointer → PointerCache → Option PointerError × PointerCache
complete_open k f p c =
    if not (valid_pointer p)
    then (some invalid_slot_pointer, with_fills c (erase k c.fills))
    else if f.conflicted
    then (some pointer_conflict, with_fills c (erase k c.fills))
    else admit_selected k (select_newest_pointer p f.pending) (with_fills c (erase k c.fills))

abbrev pub complete_current :
    Option FillState → ℕ → SlotKey → SlotPointer → PointerCache → Option PointerError × PointerCache
complete_current none i k p c = (some fill_closed, c)
complete_current (some f) i k p c =
    if f.state == i then complete_open k f p c else (some fill_closed, c)

abbrev pub complete_held :
    Option ℕ → SlotKey → SlotPointer → PointerCache → Option PointerError × PointerCache
complete_held none k p c = (some fill_closed, c)
complete_held (some i) k p c =
    if not (valid_key k) then (some fill_closed, c) else complete_current (lookup k c.fills) i k p c

abbrev pub complete :
    AuthoritativeFill → SlotPointer → PointerCache → Option PointerError × PointerCache
complete h p c = complete_held h.held h.fill_key p c

abbrev pub cancel_current : Option FillState → ℕ → SlotKey → PointerCache → PointerCache
cancel_current none i k c = c
cancel_current (some f) i k c = if f.state == i then with_fills c (erase k c.fills) else c

abbrev pub cancel_held : Option ℕ → SlotKey → PointerCache → PointerCache
cancel_held none k c = c
cancel_held (some i) k c = cancel_current (lookup k c.fills) i k c

abbrev pub cancel : AuthoritativeFill → PointerCache → PointerCache
cancel h c = cancel_held h.held h.fill_key c

abbrev pub pin_found :
    Option SlotPointer → SlotKey → PointerCache → Option RevisionPin × PointerCache
pin_found none k c = (none, c)
pin_found (some p) k c =
    (some (record { pin_key = k; pinned = p }), with_entries c (touch k p c.entries))

abbrev pub pin : SlotKey → PointerCache → Option RevisionPin × PointerCache
pin k c = if not (valid_key k) then (none, c) else pin_found (lookup k c.entries) k c
