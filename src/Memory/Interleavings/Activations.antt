-- ===== src/Memory/Interleavings/Activations.antt =====
-- A call that has begun an activation finishes it, whatever other calls do in between.
use policy_engine.Prelude.{List, ◌==◌, ℕ, ◌≡◌, refl, arith, true, some}
use policy_engine.Prelude.Assoc.{lookup, insert, lookup-insert_self}
use policy_engine.Prelude.Text.{Text}
use policy_engine.Errors.{Result, ok}
use policy_engine.Contracts.Slots.{ActivateRequest, ActivateResponse}
use policy_engine.Model.Records.{slot_activated}
use policy_engine.Memory.Events.{EventRecord, EventState, next_event_sequence, append_event}
use policy_engine.Memory.Store.{
  Text_Eq, Pair_Eq, Store, Environment, effective_time_of, with_effective_time,
  owns_commit_reservation,
}
use policy_engine.Memory.Slots.{
  Begun, activated, slot_of, activation_expectation_matches, next_generation, commit_activate,
  check_commit, build_activation,
}
use policy_engine.Memory.Interleavings.{World, Reaches, new_world, activating}
use policy_engine.Cache.Revisions.{ℕ_Eq}
use policy_engine.Memory.Interleavings.Ready.{ReadyActivation}
use policy_engine.Memory.Interleavings.Holds.{Holds-owns}
use policy_engine.Memory.Interleavings.Coordination.{Reaches-Coordinated, new_world-Coordinated}
use policy_engine.Memory.Interleavings.Outcomes.{build_activation-ok}

check_commit-ready :
    (q : ActivateRequest) (b : Begun) (s : Store) (n : ℕ)
    → ReadyActivation q b s
    → next_event_sequence (lookup q.namespace s.events) ≡ ok n
    → check_commit q b.generation s ≡ ok b.generation
unfolding check_commit
check_commit-ready q b s n r e =
    let same : (b.generation == b.generation) ≡ true = ground arith in
    rw (r.found, r.matches, r.generation, same, e) refl

logged_at :
    (n m : Text) (event : EventRecord) (now : ℕ) (events : List (Text × EventState))
    → m ≡ n
    → lookup n (insert m (append_event event now (lookup m events)) events)
      ≡ some (append_event event now (lookup n events))
logged_at n m event now events e =
    rw e (lookup-insert_self n (append_event event now (lookup n events)) events)

module _ (env : Environment) where
  -- What the second section of an activation builds, at the effective time of the clock's time.
  unfoldable pub built_at :
      ActivateRequest → Begun → ℕ → Store → Result (ActivateResponse × EventRecord)
  unfolding build_activation
  built_at q b now s =
      let effective = effective_time_of now s in
      build_activation env q b.generation effective (with_effective_time effective s)

  -- What the second section answers and stores: the slot gets the activation of the request, at its
  -- generation and at the store's effective time, and the log gets the event of that activation.
  pub record Finishes (q : ActivateRequest) (g now : ℕ) (s : Store) (response : ActivateResponse)
      (event : EventRecord) (r : Result ActivateResponse × Store) : Type 0 where
    pub answered : r.0 ≡ ok response
    pub activation : response.activation ≡ record {
      namespace = q.namespace;
      slot = q.slot;
      revision_id = q.target_revision_id;
      generation = g;
      activated_at = effective_time_of now s;
    }
    pub stored :
        lookup (q.namespace, q.slot) r.1.slots ≡ some (activated (slot_of q s) response.activation)
    pub sequence : next_event_sequence (lookup q.namespace s.events) ≡ ok event.sequence
    pub contents : event.value ≡ record {
      namespace = q.namespace;
      cursor = event.value.cursor;
      kind = slot_activated;
      revision_id = q.target_revision_id;
      slot = q.slot;
      slot_generation = g;
      data_generation = 0;
      occurred_at = effective_time_of now s;
    }
    pub logged :
        lookup q.namespace r.1.events
        ≡ some (append_event event (effective_time_of now s) (lookup q.namespace s.events))

  ready_commits :
      (q : ActivateRequest) (b : Begun) (now : ℕ) (s : Store) (response : ActivateResponse)
      (event : EventRecord)
      → owns_commit_reservation b.reservation s ≡ true
      → ReadyActivation q b s
      → built_at q b now s ≡ ok (response, event)
      → Finishes q b.generation now s response event (commit_activate env q b now s)
  unfolding commit_activate built_at
  ready_commits q b now s response event o r e =
      let effective = effective_time_of now s in
      let timed = with_effective_time effective s in
      let built = build_activation-ok env q b.generation effective timed response event e in
      rw (o, check_commit-ready q b s event.sequence r built.sequence, e)
        (record {
          answered = refl;
          activation = built.activation;
          stored =
              lookup-insert_self (q.namespace, q.slot) (activated (slot_of q s) response.activation)
                s.slots;
          sequence = built.sequence;
          contents = built.value;
          logged =
              logged_at q.namespace event.value.namespace event effective s.events built.namespace;
        })

  -- In every world that the store reaches, a call between the two sections of an activation is not
  -- overtaken: the slot still matches what the call expects, and its generation is still the next one.
  -- So the second section, at whatever time it runs, answers with the activation of the request at
  -- that generation and at the store's effective time, puts it in the slot, and appends the event of
  -- that activation to the namespace's log under the next sequence number, provided that the
  -- activation and its event can be built (the log has a sequence left, the request's texts are
  -- valid, a cursor can be sealed).
  pub commit_activate-completes :
      (w : World) (i : ℕ) (q : ActivateRequest) (b : Begun) (now : ℕ) (response : ActivateResponse)
      (event : EventRecord)
      → Reaches env new_world w
      → lookup i w.calls ≡ some (activating q b)
      → built_at q b now w.store ≡ ok (response, event)
      → (activation_expectation_matches q.expectation (slot_of q w.store) ≡ true)
        × (next_generation (slot_of q w.store) ≡ ok b.generation)
        × Finishes q b.generation now w.store response event (commit_activate env q b now w.store)
  commit_activate-completes w i q b now response event reached e built =
      let h = Reaches-Coordinated env new_world-Coordinated reached in
      let r = h.ready i (activating q b) e in
      let owned = Holds-owns w.calls w.store i (activating q b) h.holds e in
      (r.matches, r.generation, ready_commits q b now w.store response event owned r built)
