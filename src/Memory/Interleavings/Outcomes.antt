-- ===== src/Memory/Interleavings/Outcomes.antt =====
-- What the second sections store, and the event that goes with it.
use policy_engine.Prelude.{ℕ, ◌≡◌, refl, sym, ◌∙◌, ap, arith, Bool, []}
use policy_engine.Prelude.Assoc.{lookup}
use policy_engine.Prelude.Text.{Text, codes}
use policy_engine.Errors.{Result, ok, err, ◌>>=◌}
use policy_engine.Errors.Laws.{same_ok, bound}
use policy_engine.Memory.Cursors.{new_cursor}
use policy_engine.Model.Records.{StateEvent, Activation}
use policy_engine.Contracts.Slots.{
  ActivateRequest, ActivateResponse, new_activation, new_activate_response,
}
use policy_engine.Contracts.Events.{new_state_event}
use policy_engine.Memory.Events.{EventRecord, next_event_sequence}
use policy_engine.Memory.Store.{Text_Eq, Pair_Eq, Store, Environment, new_event}
use policy_engine.Memory.Slots.{activation_event, build_activation}

-- What is built before a commit has the fields of the call.
pub record BuiltEvent (input : StateEvent) (now : ℕ) (s : Store) (event : EventRecord)
    : Type 0 where
  pub sequence : next_event_sequence (lookup input.namespace s.events) ≡ ok event.sequence
  pub namespace : event.value.namespace ≡ input.namespace
  pub value : event.value ≡ record input { cursor = event.value.cursor; occurred_at = now }

module _ (env : Environment) where
  -- `new_state_event` returns what it was given.
  new_state_event-ok :
      (format : ℕ → Bool) (raw e : StateEvent) → new_state_event format raw ≡ ok e → e ≡ raw
  unfolding new_state_event
  new_state_event-ok format raw e h = ground arith

  abbrev stamped : StateEvent → Text → ℕ → StateEvent
  stamped input cursor now = record input { cursor = cursor; occurred_at = now }

  event_from :
      (input : StateEvent) (cursor : Text) (now n : ℕ) (event : EventRecord) (r : Result StateEvent)
      → new_state_event env.format (stamped input cursor now) ≡ r
      → (r >>= (λ value. ok (record { sequence = n; value = value }))) ≡ ok event
      → (n ≡ event.sequence)
        × (event.value.namespace ≡ input.namespace)
        × (event.value ≡ stamped input event.value.cursor now)
  event_from input cursor now n event (err e) c h = ground arith
  event_from input cursor now n event (ok value) c h =
      let same = new_state_event-ok env.format (stamped input cursor now) value c in
      let whole = same_ok (record { sequence = n; value = value }) event h in
      let filled : event.value ≡ stamped input cursor now = sym (ap (λ r. r.value) whole) ∙ same in
      (
        ap (λ r. r.sequence) whole,
        ap (λ v. v.namespace) filled,
        filled ∙ ap (λ c. stamped input c now) (sym (ap (λ v. v.cursor) filled)),
      )

  pub new_event-ok :
      (input : StateEvent) (now : ℕ) (s : Store) (event : EventRecord)
      → new_event env input now s ≡ ok event
      → BuiltEvent input now s event
  unfolding new_event
  new_event-ok input now s event h =
      from_sequence (next_event_sequence (lookup input.namespace s.events)) refl h
    where
      cursor_at : ℕ → Result Text
      cursor_at n = new_cursor env.sealing (record {
        domain = codes "event";
        namespace = input.namespace;
        slot = [];
        position = n;
        revision_published_at = 0;
        revision_id = [];
      })

      from_cursor :
          (n : ℕ) (c : Result Text)
          → next_event_sequence (lookup input.namespace s.events) ≡ ok n
          → (c >>= (λ cursor.
              new_state_event env.format (stamped input cursor now)
              >>= (λ value. ok (record { sequence = n; value = value }))))
            ≡ ok event
          → BuiltEvent input now s event
      from_cursor n (err e) q g = ground arith
      from_cursor n (ok cursor) q g =
          let f =
            event_from input cursor now n event
              (new_state_event env.format (stamped input cursor now)) refl g in
          record { sequence = q ∙ ap ok f.0; namespace = f.1; value = f.2 }

      from_sequence :
          (r : Result ℕ)
          → next_event_sequence (lookup input.namespace s.events) ≡ r
          → (r >>= (λ n. cursor_at n >>= (λ cursor.
              new_state_event env.format (stamped input cursor now)
              >>= (λ value. ok (record { sequence = n; value = value })))))
            ≡ ok event
          → BuiltEvent input now s event
      from_sequence (err e) q g = ground arith
      from_sequence (ok n) q g = from_cursor n (cursor_at n) q g

  new_activation-ok :
      (format : ℕ → Bool) (n l r : Text) (g t : ℕ) (a : Activation)
      → new_activation format n l r g t ≡ ok a
      → a ≡ record { namespace = n; slot = l; revision_id = r; generation = g; activated_at = t }
  unfolding new_activation
  new_activation-ok format n l r g t a h = ground arith

  -- An activation that was built, with its event.
  pub record BuiltActivation (q : ActivateRequest) (g now : ℕ) (s : Store)
      (response : ActivateResponse) (event : EventRecord) : Type 0 where
    pub activation : response.activation ≡ record {
      namespace = q.namespace;
      slot = q.slot;
      revision_id = q.target_revision_id;
      generation = g;
      activated_at = now;
    }
    pub sequence : next_event_sequence (lookup q.namespace s.events) ≡ ok event.sequence
    pub namespace : event.value.namespace ≡ q.namespace
    pub value :
        event.value
        ≡ record (activation_event q g) { cursor = event.value.cursor; occurred_at = now }

  response_of :
      (a : Activation) (r : ActivateResponse)
      → new_activate_response env.format a ≡ ok r
      → r.activation ≡ a
  unfolding new_activate_response
  response_of a r h = ground arith

  pub build_activation-ok :
      (q : ActivateRequest) (g now : ℕ) (s : Store) (response : ActivateResponse)
      (event : EventRecord)
      → build_activation env q g now s ≡ ok (response, event)
      → BuiltActivation q g now s response event
  unfolding build_activation
  build_activation-ok q g now s response event h =
      let last = (λ (r : ActivateResponse).
        new_event env (activation_event q g) now s >>= (λ e. ok (r, e))) in
      let (a, ae, h₁) =
        bound (new_activation env.format q.namespace q.slot q.target_revision_id g now)
          (λ a. new_activate_response env.format a >>= last) (response, event) h in
      let (r, re, h₂) = bound (new_activate_response env.format a) last (response, event) h₁ in
      let (e, ee, h₃) =
        bound (new_event env (activation_event q g) now s) (λ e. ok (r, e)) (response, event) h₂ in
      let same = same_ok (r, e) (response, event) h₃ in
      let built = new_event-ok (activation_event q g) now s event (ee ∙ ap (λ x. ok x.1) same) in
      record {
        activation =
            ap (λ x. x.0.activation) (sym same)
            ∙ response_of a r re
            ∙ new_activation-ok env.format q.namespace q.slot q.target_revision_id g now a ae;
        sequence = built.sequence;
        namespace = built.namespace;
        value = built.value;
      }
