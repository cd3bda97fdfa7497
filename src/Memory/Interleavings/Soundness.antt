-- ===== src/Memory/Interleavings/Soundness.antt =====
-- What holds of a stored slot, of a namespace's data and of its log, and that a commit keeps it.
use policy_engine.Prelude.{
  length, ◌++◌, ℕ, suc, ◌≤◌, ◌<◌, ◌≡◌, refl, arith, List, [], ◌∷◌, Option, none, some, Bool-cases,
  inl, inr,
}
use policy_engine.Prelude.Assoc.{lookup, insert-from}
use policy_engine.Prelude.Text.{Text}
use policy_engine.Errors.{Result, ok, err}
use policy_engine.Errors.Laws.{same_ok}
use policy_engine.Model.Records.{Activation}
use policy_engine.Contracts.Slots.{ActivateRequest, ActivateResponse}
use policy_engine.Memory.Events.{
  EventState, append_event, held_events, max_uint64, EventRecord, next_event_sequence,
}
use policy_engine.Memory.Store.{
  Text_Eq, Pair_Eq, Store, Environment, SlotState, DataState, append_to_log, IdempotencyState,
  effective_time_of, with_effective_time, owns_commit_reservation,
}
use policy_engine.Memory.Slots.{
  Begun, retained, activated, slot_of, next_generation, commit_activate, commit_checked,
  store_activation, check_commit, build_activation,
}
use policy_engine.Cache.Revisions.{ℕ_Eq}
use policy_engine.Memory.Interleavings.Outcomes.{build_activation-ok}
use policy_engine.Memory.Events.Laws.{IsLog}
use policy_engine.Memory.Events.Pages.{append_event-Retains}

-- The generations go up by one, to the one of the current activation, which is last.
abbrev pub Consecutive : List Activation → Activation → Type 0
Consecutive [] current = ⊥
Consecutive (a ∷ []) current = a ≡ current
Consecutive (a ∷ b ∷ rest) current =
    (b.generation ≡ suc a.generation) × Consecutive (b ∷ rest) current

pub record IsSlot (s : SlotState) : Type 0 where
  pub consecutive : Consecutive s.history s.current
  pub bounded : length s.history ≤ 3
  pub positive : 0 < s.current.generation
  pub in_range : s.current.generation ≤ max_uint64

-- A recorded response is of a generation that was committed.
pub record IsData (d : DataState) : Type 0 where
  pub positive : 0 < d.generation
  pub in_range : d.generation ≤ max_uint64
  pub pinned : d.current.generation ≡ d.generation
  pub recorded :
      (k : Text) (r : IdempotencyState)
      → lookup k d.idempotency ≡ some r
      → (0 < r.response.generation) × (r.response.generation ≤ d.generation)

pub record Sound (s : Store) : Type 0 where
  pub slots : (j : Text × Text) (x : SlotState) → lookup j s.slots ≡ some x → IsSlot x
  pub data_states : (n : Text) (d : DataState) → lookup n s.data_states ≡ some d → IsData d
  pub logs : (n : Text) (e : EventState) → lookup n s.events ≡ some e → IsLog e

next-Consecutive :
    (history : List Activation) (current a : Activation)
    → Consecutive history current
    → length history ≤ 3
    → a.generation ≡ suc current.generation
    → Consecutive (retained (history ++ (a ∷ []))) a × (length (retained (history ++ (a ∷ []))) ≤ 3)
next-Consecutive [] current a c l g = elim c [ ]
next-Consecutive (x ∷ []) current a c l g = ((rw c g, refl), omega arith)
next-Consecutive (x ∷ y ∷ []) current a c l g = ((c.0, (rw c.1 g, refl)), omega arith)
next-Consecutive (x ∷ y ∷ z ∷ []) current a c l g = ((c.1.0, (rw c.1.1 g, refl)), omega arith)
next-Consecutive (x ∷ y ∷ z ∷ u ∷ rest) current a c l g = ground arith

next_in_range :
    (x : SlotState) (g : ℕ)
    → next_generation (some x) ≡ ok g
    → x.current.generation ≤ max_uint64
    → (g ≡ suc x.current.generation) × (g ≤ max_uint64)
next_in_range x g h m = ground arith

activated-IsSlot :
    (o : Option SlotState) (a : Activation)
    → ((x : SlotState) → o ≡ some x → IsSlot x)
    → next_generation o ≡ ok a.generation
    → IsSlot (activated o a)
activated-IsSlot none a i g =
    let one : 1 ≡ a.generation = same_ok 1 a.generation g in
    record {
      consecutive = refl;
      bounded = omega arith;
      positive = omega arith;
      in_range = omega arith;
    }
activated-IsSlot (some x) a i g =
    let held = i x refl in
    let n = next_in_range x a.generation g held.in_range in
    let kept = next-Consecutive x.history x.current a held.consecutive held.bounded n.0 in
    record { consecutive = kept.0; bounded = kept.1; positive = omega (arith, n.0); in_range = n.1 }

unfoldable pub Logs : Store → Type 0
Logs s = (n : Text) (e : EventState) → lookup n s.events ≡ some e → IsLog e

held-IsLog :
    (o : Option EventState) → ((e : EventState) → o ≡ some e → IsLog e) → IsLog (held_events o)
held-IsLog none i = tt
held-IsLog (some e) i = i e refl

pub insert-Logs :
    (s : Store) (event : EventRecord) (now : ℕ)
    → Logs s
    → next_event_sequence (lookup event.value.namespace s.events) ≡ ok event.sequence
    → Logs (append_to_log event now s)
unfolding Logs
insert-Logs s event now i h n e f =
    let o = lookup event.value.namespace s.events in
    elim (insert-from n event.value.namespace (append_event event now o) e s.events f) [
      | inl (same, new) ↦
          rw new (append_event-Retains o event now (held-IsLog o (i event.value.namespace)) h).log
      | inr (differs, old) ↦ i n e old
    ]

pub Sound-timed : (now : ℕ) (s : Store) → Sound s → Sound (with_effective_time now s)
Sound-timed now s i = record { slots = i.slots; data_states = i.data_states; logs = i.logs }

module _ (env : Environment) where
  store_activation-Sound :
      (q : ActivateRequest) (g now : ℕ) (r : Result (ActivateResponse × EventRecord)) (s : Store)
      → Sound s
      → next_generation (slot_of q s) ≡ ok g
      → build_activation env q g now s ≡ r
      → Sound (store_activation env q now r s).1
  unfolding Logs
  store_activation-Sound q g now (err e) s i n b = i
  store_activation-Sound q g now (ok (response, event)) s i n b =
      let built = build_activation-ok env q g now s response event b in
      let a = response.activation in
      let next : next_generation (slot_of q s) ≡ ok a.generation = rw built.activation n in
      record {
        slots = λ j. λ x. λ f.
            elim (insert-from j (q.namespace, q.slot) (activated (slot_of q s) a) x s.slots f) [
              | inl (same, new) ↦
                  rw new (activated-IsSlot (slot_of q s) a (i.slots (q.namespace, q.slot)) next)
              | inr (differs, old) ↦ i.slots j x old
            ];
        data_states = i.data_states;
        logs = insert-Logs s event now i.logs (rw built.namespace built.sequence);
      }

  commit_checked-Sound :
      (q : ActivateRequest) (candidate : ℕ) (r : Result ℕ) (s : Store)
      → Sound s
      → ((g : ℕ) → r ≡ ok g → next_generation (slot_of q s) ≡ ok g)
      → Sound (commit_checked env q candidate r s).1
  unfolding build_activation
  commit_checked-Sound q candidate (err e) s i n = i
  commit_checked-Sound q candidate (ok g) s i n =
      let now = effective_time_of candidate s in
      let timed = with_effective_time now s in
      store_activation-Sound q g now (build_activation env q g now timed) timed
        (Sound-timed now s i) (n g refl) refl

  check_commit-generation :
      (q : ActivateRequest) (b g : ℕ) (s : Store)
      → check_commit q b s ≡ ok g
      → next_generation (slot_of q s) ≡ ok g
  unfolding check_commit
  check_commit-generation q b g s h = ground arith

  pub commit_activate-Sound :
      (q : ActivateRequest) (b : Begun) (now : ℕ) (s : Store)
      → Sound s
      → Sound (commit_activate env q b now s).1
  unfolding commit_activate
  commit_activate-Sound q b now s i = elim (Bool-cases (owns_commit_reservation b.reservation s)) [
    | inl o ↦ rw o (
        commit_checked-Sound q now (check_commit q b.generation s) s i
          (λ g. check_commit-generation q b.generation g s))
    | inr o ↦ rw o i
  ]
