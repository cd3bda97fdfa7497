-- ===== src/Cache/Revisions/Loads.antt =====
-- internal/cache/revisions.go: `GetOrLoad`, the load in its own goroutine and the wait for it, as
-- the steps that each takes the mutex. `canceled` is the caller's `ctx.Err() != nil`.
use policy_engine.Prelude.{
  ℕ, suc, ◌+◌, ◌-◌, Bool, false, not, List, Option, none, some, ◌⊎◌, inl, inr, if◌then◌else◌,
  length, ◌==◌,
}
use policy_engine.Prelude.Text.{Text}
use policy_engine.Prelude.Assoc.{lookup, insert, erase, touch}
use policy_engine.Cache.Revisions.{
  RevisionKey, RevisionKey_Eq, ℕ_Eq, RevisionError, HydratedRevision, RevisionEntry, RevisionCall,
  RevisionCache, LoaderResult, Entered, panicked, failed, returned, refused, hit, waits,
  with_entries, with_calls, set_waiters, set_abandoned, set_outcome, admit, valid_revision_key,
  approximate_revision_bytes, invalid_revision_key, invalid_artifact, nil_loader, loader_panic,
  loader_error, context_error,
}

abbrev pub is_call : Option ℕ → ℕ → Bool
is_call none i = false
is_call (some j) i = j == i

-- `if current == call { delete(c.inflight, key) }`
abbrev pub leave_inflight : RevisionKey → ℕ → List (RevisionKey × ℕ) → List (RevisionKey × ℕ)
leave_inflight k i f = if is_call (lookup k f) i then erase k f else f

-- The DSL library's `Program() != nil` and `MarshalBinary`, `none` its error.
module _ {A : Type 0} (has_program : A → Bool) (marshal : A → Option Text) where
  abbrev hydrate_encoded : RevisionKey → A → Option Text → RevisionError ⊎ HydratedRevision A
  hydrate_encoded k a none = inl invalid_artifact
  hydrate_encoded k a (some encoded) =
      inr
        (record { artifact = a; approximate_bytes = approximate_revision_bytes k (length encoded) })

  abbrev pub hydrate_revision : RevisionKey → Option A → RevisionError ⊎ HydratedRevision A
  hydrate_revision k none = inl invalid_artifact
  hydrate_revision k (some a) =
      if not (has_program a) then inl invalid_artifact else hydrate_encoded k a (marshal a)

  abbrev pub load_revision : RevisionKey → LoaderResult A → RevisionError ⊎ HydratedRevision A
  load_revision k panicked = inl loader_panic
  load_revision k failed = inl loader_error
  load_revision k (returned a) = hydrate_revision k a

module _ {A : Type 0} where
  abbrev pub start_load : RevisionKey → RevisionCache A → Entered A × RevisionCache A
  start_load k c = (
    waits c.next_call,
    record {
      limits = c.limits;
      entries = c.entries;
      inflight = insert k c.next_call c.inflight;
      bytes = c.bytes;
      calls =
          insert c.next_call
            (record { call_key = k; waiters = 1; abandoned = false; outcome = none }) c.calls;
      next_call = suc c.next_call;
    },
  )

  abbrev pub join_call : Option (RevisionCall A) → ℕ → RevisionCache A → Entered A × RevisionCache A
  join_call none i c = (waits i, c)
  join_call (some l) i c =
      (waits i, with_calls c c.inflight (insert i (set_waiters (l.waiters + 1) l) c.calls))

  abbrev pub enter_missing : Option ℕ → RevisionKey → RevisionCache A → Entered A × RevisionCache A
  enter_missing (some i) k c = join_call (lookup i c.calls) i c
  enter_missing none k c = start_load k c

  abbrev pub enter_found :
      Option (RevisionEntry A) → RevisionKey → RevisionCache A → Entered A × RevisionCache A
  enter_found (some e) k c = (hit e.value, with_entries c (touch k e c.entries) c.bytes)
  enter_found none k c = enter_missing (lookup k c.inflight) k c

  -- `GetOrLoad` up to its wait.
  abbrev pub get_or_load : Bool → Bool → RevisionKey → RevisionCache A → Entered A × RevisionCache A
  get_or_load canceled has_loader k c =
      if canceled
      then (refused context_error, c)
      else if not (valid_revision_key k)
      then (refused invalid_revision_key, c)
      else if not has_loader
      then (refused nil_loader, c)
      else enter_found (lookup k c.entries) k c

  abbrev pub close_call :
      ℕ → RevisionCall A → RevisionError ⊎ HydratedRevision A → RevisionCache A → RevisionCache A
  close_call i l r c = with_calls c c.inflight (insert i (set_outcome r l) c.calls)

  abbrev pub close_admitted :
      ℕ → RevisionCall A → Option (HydratedRevision A × RevisionCache A) → Option (RevisionCache A)
  close_admitted i l none = none
  close_admitted i l (some (v, c)) = some (close_call i l (inr v) c)

  abbrev pub complete_loaded :
      ℕ
      → RevisionCall A
      → RevisionError ⊎ HydratedRevision A
      → RevisionCache A
      → Option (RevisionCache A)
  complete_loaded i l (inl e) c = some (close_call i l (inl e) c)
  complete_loaded i l (inr v) c =
      if l.abandoned
      then some (close_call i l (inr v) c)
      else close_admitted i l (admit l.call_key v c)

  abbrev pub complete_open :
      Option (RevisionError ⊎ HydratedRevision A)
      → ℕ
      → RevisionCall A
      → RevisionError ⊎ HydratedRevision A
      → RevisionCache A
      → Option (RevisionCache A)
  complete_open (some o) i l r c = none
  complete_open none i l r c =
      complete_loaded i l r (with_calls c (leave_inflight l.call_key i c.inflight) c.calls)

  abbrev pub complete_call :
      Option (RevisionCall A)
      → ℕ
      → RevisionError ⊎ HydratedRevision A
      → RevisionCache A
      → Option (RevisionCache A)
  complete_call none i r c = none
  complete_call (some l) i r c = complete_open l.outcome i l r c

  -- `none` for an unknown call, and for the panic of closing `done` twice.
  abbrev pub complete_revision_load :
      ℕ → RevisionError ⊎ HydratedRevision A → RevisionCache A → Option (RevisionCache A)
  complete_revision_load i r c = complete_call (lookup i c.calls) i r c

  -- `case <-call.done`, when it is closed.
  abbrev pub wait_done : ℕ → RevisionCache A → Option (RevisionError ⊎ HydratedRevision A)
  wait_done i c = elim (lookup i c.calls) [ none ↦ none | some l ↦ l.outcome ]

  abbrev pub leave_call : ℕ → RevisionCall A → RevisionCache A → RevisionCache A
  leave_call i l c =
      if l.waiters == 1
      then with_calls c (erase l.call_key c.inflight) (insert i (set_abandoned l) c.calls)
      else with_calls c c.inflight (insert i (set_waiters (l.waiters - 1) l) c.calls)

  abbrev pub cancel_call : Option (RevisionCall A) → ℕ → RevisionCache A → RevisionCache A
  cancel_call none i c = c
  cancel_call (some l) i c =
      if is_call (lookup l.call_key c.inflight) i then leave_call i l c else c

  -- `case <-ctx.Done()`
  abbrev pub wait_canceled : ℕ → RevisionCache A → RevisionCache A
  wait_canceled i c = cancel_call (lookup i c.calls) i c
