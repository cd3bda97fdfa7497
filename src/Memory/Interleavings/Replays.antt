-- ===== src/Memory/Interleavings/Replays.antt =====
-- Idempotency: a committed write stays recorded under its key, whatever follows.
use policy_engine.Prelude.{
  ℕ, ◌≡◌, ◌≢◌, refl, sym, ◌∙◌, ap, arith, Option, none, some, ◌⊎◌, Bool-cases, inl, inr,
}
use policy_engine.Prelude.Assoc.{
  lookup, lookup-insert_other, lookup-insert_self, insert-to, none-some,
}
use policy_engine.Prelude.Text.{Text, text_eq_iff}
use policy_engine.Errors.{Result, ErrorCategory, ok, err, internal}
use policy_engine.Errors.Laws.{same_ok, err_ok}
use policy_engine.Memory.Events.{EventRecord, next_event_sequence}
use policy_engine.Memory.Store.{
  Text_Eq, Pair_Eq, Store, Environment, DataState, WriteDataResponse, IdempotencyState, new_event,
  effective_time_of, with_effective_time, owns_commit_reservation,
}
use policy_engine.Memory.Writes.{Write, PendingWrite, data_of, idempotency_record}
use policy_engine.Memory.Writes.Commits.{
  recorded, commit_write, store_write, commit_sequenced, commit_recorded, written, write_event,
  check_commit_write,
}
use policy_engine.Cache.Revisions.{ℕ_Eq}

same_or_other : (m n : Text) → (m ≡ n) ⊎ (m ≢ n)
same_or_other m n = ground (arith, text_eq_iff m n)

-- A namespace's data has a record of the key.
abbrev pub Recorded : Text → Text → IdempotencyState → Store → Type 0
Recorded n k x s = idempotency_record (lookup n s.data_states) k ≡ some x

abbrev pub record_of : Write → PendingWrite → IdempotencyState
record_of d p = record { fingerprint = d.fingerprint; response = p.response }

record_recorded : (o : Option DataState) (k : Text) → idempotency_record o k ≡ lookup k (recorded o)
record_recorded none k = refl
record_recorded (some x) k = refl

Recorded-written :
    (d : Write) (p : PendingWrite) (o : Option DataState) (k : Text) (x : IdempotencyState)
    → idempotency_record o d.request.idempotency_key ≡ none
    → idempotency_record o k ≡ some x
    → lookup k (written d p o).idempotency ≡ some x
Recorded-written d p o k x fresh h =
    elim (insert-to k d.request.idempotency_key (record_of d p) x (recorded o)
      (sym (record_recorded o k) ∙ h)) [
        | inl (same, f) ↦ absurd (none-some x (sym fresh ∙ rw (sym same) h))
        | inr (differs, f) ↦ f
      ]

-- A commit keeps the records there are.
abbrev pub Keeps : Store → Store → Type 0
Keeps s t = (n k : Text) (x : IdempotencyState) → Recorded n k x s → Recorded n k x t

module _ (env : Environment) where
  store_write-Keeps :
      (d : Write) (p : PendingWrite) (now : ℕ) (r : Result EventRecord) (s : Store)
      → idempotency_record (data_of d s) d.request.idempotency_key ≡ none
      → Keeps s (store_write env d p now r s).1
  store_write-Keeps d p now (err e) s fresh n k x h = h
  store_write-Keeps d p now (ok event) s fresh n k x h =
      elim (same_or_other n d.request.namespace) [
        | inl e ↦
            rw (e, lookup-insert_self d.request.namespace (written d p (data_of d s)) s.data_states)
              (Recorded-written d p (data_of d s) k x fresh
                (ap (λ m. idempotency_record (lookup m s.data_states) k) (sym e) ∙ h))
        | inr e ↦
            rw
              (lookup-insert_other n d.request.namespace (written d p (data_of d s)) s.data_states
                e)
              h
      ]

  store_write-records :
      (d : Write) (p : PendingWrite) (now : ℕ) (r : Result EventRecord) (s : Store)
      (a : WriteDataResponse)
      → (store_write env d p now r s).0 ≡ ok a
      → (a ≡ p.response)
        × Recorded d.request.namespace d.request.idempotency_key
            (record_of d p)
            (store_write env d p now r s).1
  store_write-records d p now (err e) s a h = ground arith
  store_write-records d p now (ok event) s a h = (
    sym (same_ok p.response a h),
    rw (lookup-insert_self d.request.namespace (written d p (data_of d s)) s.data_states)
        (lookup-insert_self d.request.idempotency_key (record_of d p) (recorded (data_of d s))),
  )

  -- What the layers above it make of a commit whose key was free.
  pub record Remembers (d : Write) (p : PendingWrite) (s : Store)
      (c : Result WriteDataResponse × Store) : Type 0 where
    pub keeps : Keeps s c.1
    pub records :
        (a : WriteDataResponse)
        → c.0 ≡ ok a
        → (a ≡ p.response)
          × Recorded d.request.namespace d.request.idempotency_key (record_of d p) c.1

  refused-Remembers :
      (d : Write) (p : PendingWrite) (s : Store) (e : ErrorCategory) → Remembers d p s (err e, s)
  refused-Remembers d p s e = record {
    keeps = λ n. λ k. λ x. λ h. h;
    records = λ a. λ h. absurd (err_ok e a h);
  }

  commit_sequenced-Remembers :
      (d : Write) (p : PendingWrite) (candidate : ℕ) (r : Result ℕ) (s : Store)
      → idempotency_record (data_of d s) d.request.idempotency_key ≡ none
      → Remembers d p s (commit_sequenced env d p candidate r s)
  unfolding commit_sequenced
  commit_sequenced-Remembers d p candidate (err e) s f = refused-Remembers d p s e
  commit_sequenced-Remembers d p candidate (ok n) s f =
      let now = effective_time_of candidate s in
      let timed = with_effective_time now s in
      let event = new_event env (write_event d p) now timed in
      record {
        keeps = store_write-Keeps d p now event timed f;
        records = store_write-records d p now event timed;
      }

  commit_recorded-Remembers :
      (d : Write) (p : PendingWrite) (candidate : ℕ) (r : Result (Unit {0}))
      (o : Option IdempotencyState) (s : Store)
      → idempotency_record (data_of d s) d.request.idempotency_key ≡ none
      → o ≡ none
      → Remembers d p s (commit_recorded env d p candidate r o s)
  unfolding commit_recorded
  commit_recorded-Remembers d p candidate (err e) o s f n = refused-Remembers d p s e
  commit_recorded-Remembers d p candidate (ok u) (some previous) s f n = ground arith
  commit_recorded-Remembers d p candidate (ok u) none s f n =
      commit_sequenced-Remembers d p candidate
        (next_event_sequence (lookup d.request.namespace s.events)) s f

  pub commit_write-Remembers :
      (d : Write) (p : PendingWrite) (now : ℕ) (s : Store)
      → idempotency_record (data_of d s) d.request.idempotency_key ≡ none
      → Remembers d p s (commit_write env d p now s)
  unfolding commit_write
  commit_write-Remembers d p now s f = elim (Bool-cases (owns_commit_reservation p.reservation s)) [
    | inl o ↦ rw o (
        commit_recorded-Remembers d p now (check_commit_write d p s)
          (idempotency_record (data_of d s) d.request.idempotency_key) s f f)
    | inr o ↦ rw o (refused-Remembers d p s internal)
  ]
