-- ===== src/Memory/Events.antt =====
-- store/memory/events.go: the event log of one namespace, its retention and its pages. The store
-- holds its mutex through each of these steps. A cursor is the sequence number it stands for; the
-- sealing of cursors is that of cursors.go. `sort.Search` gives the first index at which a test
-- holds, as it documents for the tests used here, which stay true once they are. A time is the store's
-- effective one, and a namespace with no log yet is read as the empty log.
pub mod Laws
pub mod Pages
pub mod Retention
mod Tests
use policy_engine.Prelude.{
  ℕ, zero, suc, ◌+◌, ◌-◌, ◌^◌, max, min, Bool, true, false, ◌&&◌, List, [], ◌∷◌, ◌++◌, Option, none,
  some, if◌then◌else◌, length, get_elem?, take, drop, ltb, leb, ◌==◌,
}
use policy_engine.Errors.{Result, ok, err, resource_exhausted, cursor_expired}
use policy_engine.Model.Records.{StateEvent}

pub record EventRecord : Type 0 where
  pub sequence : ℕ
  pub value : StateEvent

pub record EventState : Type 0 where
  pub values : List EventRecord
  pub expired_through : ℕ

abbrev pub event_retention_limit : ℕ
event_retention_limit = 100000

-- 24 hours, in nanoseconds.
abbrev pub default_event_retention : ℕ
default_event_retention = 86400000000000

abbrev pub max_uint64 : ℕ
max_uint64 = 2 ^ 64 - 1

-- The first index at which the test holds, or the length.
abbrev pub first_index : (EventRecord → Bool) → List EventRecord → ℕ
first_index test [] = 0
first_index test (e ∷ es) = let rest = first_index test es in if test e then 0 else suc rest

-- `max(highWater, values[len-1].sequence)`
abbrev pub high_water : ℕ → List EventRecord → ℕ
high_water mark [] = mark
high_water mark (e ∷ []) = max mark e.sequence
high_water mark (e ∷ f ∷ es) = high_water mark (f ∷ es)

abbrev pub next_event_sequence : Option EventState → Result ℕ
next_event_sequence none = ok 1
next_event_sequence (some s) =
    let mark = high_water s.expired_through s.values in
    if mark == max_uint64 then err resource_exhausted else ok (mark + 1)

-- The log without its first `cut` events, whose last one is `e`.
abbrev pub cut_events : ℕ → Option EventRecord → EventState → EventState
cut_events cut none s = s
cut_events cut (some e) s = record {
  values = drop cut s.values;
  expired_through = max s.expired_through e.sequence;
}

abbrev pub retention_cut : ℕ → List EventRecord → ℕ
retention_cut now values =
    max (first_index (λ e. ltb now (e.value.occurred_at + default_event_retention)) values)
      (length values - event_retention_limit)

abbrev pub prune_events : ℕ → EventState → EventState
prune_events now s =
    let cut = retention_cut now s.values in
    if cut == 0 then s else cut_events cut (get_elem? s.values (cut - 1)) s

abbrev pub held_events : Option EventState → EventState
held_events none = record { values = []; expired_through = 0 }
held_events (some s) = s

abbrev pub append_event : EventRecord → ℕ → Option EventState → EventState
append_event e now o =
    let s = held_events o in
    prune_events now (record { values = s.values ++ (e ∷ []); expired_through = s.expired_through })

abbrev pub last_sequence : List EventRecord → Option ℕ
last_sequence [] = none
last_sequence (e ∷ []) = some e.sequence
last_sequence (e ∷ f ∷ es) = last_sequence (f ∷ es)

-- `values[start:end]`, and the cursor of its last event if more follow.
abbrev pub event_page : ℕ → ℕ → List EventRecord → List EventRecord × Option ℕ
event_page position limit values =
    let start = first_index (λ e. ltb position e.sequence) values in
    let stop = min (start + limit) (length values) in
    let page = take (stop - start) (drop start values) in
    (page, if ltb stop (length values) then last_sequence page else none)

abbrev pub list_events :
    Bool → ℕ → ℕ → ℕ → EventState → Result (List EventRecord × Option ℕ) × EventState
list_events has_cursor position limit now s =
    let pruned = prune_events now s in
    (
      (if has_cursor && leb position pruned.expired_through
          then err cursor_expired
          else ok (event_page position limit pruned.values)),
      pruned,
    )
