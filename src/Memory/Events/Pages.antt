-- ===== src/Memory/Events/Pages.antt =====
-- What an append and a page of the event log do.
use policy_engine.Prelude.{
  arith, ℕ, ◌+◌, ◌-◌, ◌≤◌, ◌<◌, ◌≡◌, refl, sym, ap, ◌∙◌, min, Bool, true, false, ◌&&◌, List, [],
  ◌∷◌, ◌++◌, Option, none, some, if◌then◌else◌, length, take, ltb, leb,
}
use policy_engine.Errors.{ok, err, cursor_expired}
use policy_engine.Memory.Events.{
  EventRecord, EventState, first_index, high_water, next_event_sequence, prune_events, held_events,
  append_event, event_page, list_events, last_sequence,
}
use policy_engine.Prelude.{length-drop}
use policy_engine.Memory.Events.Laws.{
  IsLog, after, Retains, prune_events-Retains, Ascends-append, drop-first_index, first_index_le,
  take-min,
}

-- The log with the event behind it, before retention.
abbrev pub extended : EventState → EventRecord → EventState
extended s e = record { values = s.values ++ (e ∷ []); expired_through = s.expired_through }

above_mark :
    (s : EventState) (n : ℕ)
    → next_event_sequence (some s) ≡ ok n
    → high_water s.expired_through s.values < n
above_mark s n h = ground arith

extended-IsLog :
    (o : Option EventState) (e : EventRecord)
    → IsLog (held_events o)
    → next_event_sequence o ≡ ok e.sequence
    → IsLog (extended (held_events o) e)
extended-IsLog none e i h = ground arith
extended-IsLog (some s) e i h =
    Ascends-append s.expired_through e s.values i (above_mark s e.sequence h)

-- An event appended under the sequence that `nextEventSequence` gave, at any time: the log stays
-- ordered above its expiry mark, the mark only moves forward, and at every position that is not
-- expired a reader sees exactly the events it would have seen, and the new one behind them.
pub append_event-Retains :
    (o : Option EventState) (e : EventRecord) (now : ℕ)
    → IsLog (held_events o)
    → next_event_sequence o ≡ ok e.sequence
    → Retains (extended (held_events o) e) (append_event e now o)
append_event-Retains o e now i h =
    prune_events-Retains now (extended (held_events o) e) (extended-IsLog o e i h)

-- The first `limit` of the events, and the cursor of the last one if there are more.
abbrev pub page_of : ℕ → List EventRecord → List EventRecord × Option ℕ
page_of limit rest =
    (take limit rest, if ltb limit (length rest) then last_sequence (take limit rest) else none)

stop_lem :
    (start limit size : ℕ)
    → start ≤ size
    → min (start + limit) size - start ≡ min limit (size - start)
stop_lem start limit size h = omega arith

more_lem :
    (start limit size : ℕ)
    → start ≤ size
    → ltb (min (start + limit) size) size ≡ ltb limit (size - start)
more_lem start limit size h = ground arith

event_page-page_of :
    (p limit : ℕ) (s : EventState)
    → IsLog s
    → event_page p limit s.values ≡ page_of limit (after p s.values)
event_page-page_of p limit s i =
    let start = first_index (λ e. ltb p e.sequence) s.values in
    let inside = first_index_le (λ e. ltb p e.sequence) s.values in
    let rest = drop-first_index p s.expired_through s.values i in
    let long : length s.values - start ≡ length (after p s.values) =
      sym (length-drop start s.values) ∙ ap length rest in
    rw
      (
        stop_lem start limit (length s.values) inside,
        more_lem start limit (length s.values) inside,
        long,
        rest,
        take-min limit (after p s.values),
      )
      refl

-- A page of a log: retention is applied first; a reader whose cursor is at or behind the expiry
-- mark is told that it expired; any other gets the first `limit` events after its position, in
-- order, and the cursor of the last of them exactly if there are more.
pub list_events-exact :
    (has_cursor : Bool) (p limit now : ℕ) (s : EventState)
    → IsLog s
    → list_events has_cursor p limit now s ≡ (
      (if has_cursor && leb p (prune_events now s).expired_through
          then err cursor_expired
          else ok (page_of limit (after p (prune_events now s).values))),
      prune_events now s,
    )
list_events-exact has_cursor p limit now s i =
    rw
      (
        list_events,
        event_page-page_of p limit (prune_events now s) (prune_events-Retains now s i).log,
      )
      refl

late : (p q : ℕ) → q < p → leb p q ≡ false
late p q h = ground arith

-- A reader whose cursor is not refused misses nothing: its page is that of the log before retention.
pub list_events_complete :
    (p limit now : ℕ) (s : EventState)
    → IsLog s
    → (prune_events now s).expired_through < p
    → (list_events true p limit now s).0 ≡ ok (page_of limit (after p s.values))
list_events_complete p limit now s i h =
    let kept = (prune_events-Retains now s i).nothing_lost p (omega (arith, h)) in
    ap (λ r. r.0) (list_events-exact true p limit now s i)
    ∙ rw (late p (prune_events now s).expired_through h, kept) refl
