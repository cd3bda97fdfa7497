-- ===== src/Memory/Events/Tests.antt =====
-- The event log at work: three events, of which the first expires.
use policy_engine.Prelude.{
  arith, ℕ, ◌+◌, ◌≡◌, refl, true, false, ◌&&◌, [], ◌∷◌, some, if◌then◌else◌, leb,
}
use policy_engine.Prelude.Text.{codes}
use policy_engine.Errors.{ok, err, cursor_expired}
use policy_engine.Model.Records.{data_written}
use policy_engine.Memory.Events.{
  EventRecord, EventState, prune_events, append_event, list_events, default_event_retention,
}
use policy_engine.Memory.Events.Laws.{IsLog, after, Retains}
use policy_engine.Memory.Events.Retention.{retained_log, prune_events-exact}
use policy_engine.Memory.Events.Pages.{
  extended, page_of, append_event-Retains, list_events-exact, list_events_complete,
}

abbrev event : ℕ → ℕ → EventRecord
event n time = record {
  sequence = n;
  value = record {
    namespace = codes "acme";
    cursor = [];
    kind = data_written;
    revision_id = [];
    slot = [];
    slot_generation = 0;
    data_generation = n;
    occurred_at = time;
  };
}

abbrev log : EventState
log = record { values = event 1 5 ∷ event 2 9 ∷ event 3 12 ∷ []; expired_through = 0 }

-- A time at which the first event is more than a day old and the others are not.
abbrev later : ℕ
later = default_event_retention + 7

log-IsLog : IsLog log
log-IsLog = (omega arith, (omega arith, (omega arith, tt)))

first_expires :
    prune_events later log ≡ record { values = event 2 9 ∷ event 3 12 ∷ []; expired_through = 1 }
first_expires = refl

expired_cursor : (list_events true 1 10 later log).0 ≡ err cursor_expired
expired_cursor = refl

one_of_three : (list_events false 0 1 10 log).0 ≡ ok (event 1 5 ∷ [], some 1)
one_of_three = refl

append_event-Retains_example :
    Retains (extended log (event 4 later)) (append_event (event 4 later) later (some log))
append_event-Retains_example = append_event-Retains (some log) (event 4 later) later log-IsLog refl

list_events-exact_example : list_events true 1 10 later log ≡ (
  (if true && leb 1 (prune_events later log).expired_through
      then err cursor_expired
      else ok (page_of 10 (after 1 (prune_events later log).values))),
  prune_events later log,
)
list_events-exact_example = list_events-exact true 1 10 later log log-IsLog

list_events_complete_example :
    (list_events true 2 10 later log).0 ≡ ok (page_of 10 (after 2 log.values))
list_events_complete_example = list_events_complete 2 10 later log log-IsLog (omega arith)

prune_events-exact_example : prune_events later log ≡ retained_log later log
prune_events-exact_example =
    prune_events-exact later log (omega arith, (omega arith, (omega arith, tt)))
