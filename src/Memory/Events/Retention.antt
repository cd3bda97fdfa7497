-- ===== src/Memory/Events/Retention.antt =====
-- What retention keeps of an event log, store/memory/events.go.
use policy_engine.Prelude.{
  arith, ℕ, zero, suc, ◌+◌, ◌-◌, ◌≤◌, ◌≡◌, refl, sym, ap, ◌∙◌, max, List, [], ◌∷◌, Option, none,
  some, if◌then◌else◌, length, get_elem?, take, drop, ltb, ◌==◌, ◌≢◌, false, length-drop,
}
use policy_engine.Memory.Events.{
  EventRecord, EventState, first_index, high_water, cut_events, retention_cut, prune_events,
  event_retention_limit, default_event_retention,
}
use policy_engine.Memory.Events.Laws.{first_index_le}

-- The times of the events, which the store's effective time gives, do not go back.
abbrev pub InOrder : ℕ → List EventRecord → Type 0
InOrder low [] = Unit
InOrder low (e ∷ es) = (low ≤ e.value.occurred_at) × InOrder e.value.occurred_at es

-- The events that are less than the retention time old.
abbrev pub recent : ℕ → List EventRecord → List EventRecord
recent now [] = []
recent now (e ∷ es) =
    let rest = recent now es in
    if ltb now (e.value.occurred_at + default_event_retention) then e ∷ rest else rest

-- The last n of the events.
abbrev pub newest : ℕ → List EventRecord → List EventRecord
newest n es = drop (length es - n) es

-- The events before those that are kept.
abbrev pub before : List EventRecord → List EventRecord → List EventRecord
before kept es = take (length es - length kept) es

-- The specification: the newest of the recent events stay, and the mark is at the last other one.
abbrev pub retained_log : ℕ → EventState → EventState
retained_log now s =
    let kept = newest event_retention_limit (recent now s.values) in
    record { values = kept; expired_through = high_water s.expired_through (before kept s.values) }

recent-all :
    (now low : ℕ) (es : List EventRecord)
    → InOrder low es
    → now + 1 ≤ low + default_event_retention
    → recent now es ≡ es
recent-all now low [] o h = refl
recent-all now low (e ∷ es) o h =
    let rest = recent-all now e.value.occurred_at es o.1 (omega (arith, o.0)) in
    ground (arith, rest)

-- Cutting at the first recent event keeps the recent ones.
drop-recent :
    (now low : ℕ) (es : List EventRecord)
    → InOrder low es
    → drop (first_index (λ e. ltb now (e.value.occurred_at + default_event_retention)) es) es
      ≡ recent now es
drop-recent now low [] o = refl
drop-recent now low (e ∷ es) o =
    ground
      (arith, drop-recent now e.value.occurred_at es o.1, recent-all now e.value.occurred_at es o.1)

drop-nil : (n : ℕ) → drop {A = EventRecord} n [] ≡ []
drop-nil zero = refl
drop-nil (suc n) = refl

drop-add : (n m : ℕ) (es : List EventRecord) → drop (n + m) es ≡ drop m (drop n es)
drop-add zero m es = ground arith
drop-add (suc n) m [] = drop-nil (suc n + m) ∙ sym (drop-nil m)
drop-add (suc n) m (e ∷ es) =
    let next : suc n + m ≡ suc (n + m) = omega arith in rw next (drop-add n m es)

-- The mark behind the first events is the sequence of the last of them, or the mark before.
high_water-take :
    (n mark : ℕ) (es : List EventRecord) (e : EventRecord)
    → get_elem? es n ≡ some e
    → high_water mark (take (suc n) es) ≡ max mark e.sequence
high_water-take n mark [] e h = ground arith
high_water-take zero mark (f ∷ es) e h = ground arith
high_water-take (suc n) mark (f ∷ []) e h = ground arith
high_water-take (suc n) mark (f ∷ g ∷ es) e h = high_water-take n mark (g ∷ es) e h

get_elem?-inside : (n : ℕ) (es : List EventRecord) → suc n ≤ length es → get_elem? es n ≢ none
get_elem?-inside n [] l h = ground arith
get_elem?-inside zero (e ∷ es) l h = ground arith
get_elem?-inside (suc n) (e ∷ es) l h = get_elem?-inside n es (omega (arith, l)) h

-- The log without its first events.
abbrev without : ℕ → EventState → EventState
without cut s = record {
  values = drop cut s.values;
  expired_through = high_water s.expired_through (take cut s.values);
}

cut_events-without :
    (n : ℕ) (o : Option EventRecord) (s : EventState)
    → suc n ≤ length s.values
    → get_elem? s.values n ≡ o
    → cut_events (suc n) o s ≡ without (suc n) s
cut_events-without n none s l h = absurd (get_elem?-inside n s.values l h)
cut_events-without n (some e) s l h = rw (high_water-take n s.expired_through s.values e h) refl

prune_at :
    (cut : ℕ) (s : EventState)
    → cut ≤ length s.values
    → (if cut == 0 then s else cut_events cut (get_elem? s.values (cut - 1)) s) ≡ without cut s
prune_at zero s l = refl
prune_at (suc n) s l =
    let one : suc n - 1 ≡ n = omega arith in
    let some_cut : (suc n == 0) ≡ false = ground arith in
    rw (some_cut, one) (cut_events-without n (get_elem? s.values n) s l refl)

-- A cut at the first recent event and at the limit keeps the newest of the recent events.
cut-newest :
    (first limit : ℕ) (es kept : List EventRecord)
    → first ≤ length es
    → drop first es ≡ kept
    → (drop (max first (length es - limit)) es ≡ newest limit kept)
      × (max first (length es - limit) ≡ length es - length (newest limit kept))
cut-newest first limit es kept l h =
    let cut = max first (length es - limit) in
    let long : length kept ≡ length es - first = ap length (sym h) ∙ length-drop first es in
    let split : cut ≡ first + (length kept - limit) = omega (arith, long) in
    let same : drop cut es ≡ newest limit kept =
      ap (λ n. drop n es) split
      ∙ drop-add first (length kept - limit) es
      ∙ ap (drop (length kept - limit)) h in
    (same, omega (arith, l, length-drop cut es, ap length same))

-- For a log whose events are in the order of their times, retention keeps exactly the events that are
-- less than 24 hours old, or the newest 100000 of them if there are more. The expiry mark is then the
-- larger of the mark before and the sequence of the last event that was dropped; it is the mark before
-- if none was.
pub prune_events-exact :
    (now : ℕ) (s : EventState) → InOrder 0 s.values → prune_events now s ≡ retained_log now s
prune_events-exact now s o =
    let first =
      first_index (λ e. ltb now (e.value.occurred_at + default_event_retention)) s.values in
    let inside =
      first_index_le (λ e. ltb now (e.value.occurred_at + default_event_retention)) s.values in
    let cut =
      cut-newest first event_retention_limit s.values (recent now s.values) inside
        (drop-recent now 0 s.values o) in
    prune_at (retention_cut now s.values) s (omega (arith, inside)) ∙ rw (cut.0, sym cut.1) refl
