-- ===== src/Cache/Revisions.antt =====
-- internal/cache/revisions.go and weight.go: the bounded cache of compiled revisions, which loads a
-- missing one once for all that wait for it. One list models the map of entries and the recency
-- list, front first. A call is compared by its address; `calls` is the store of calls by address,
-- where a closed `done` channel is an outcome. The artifact is the DSL library's, a parameter. The
-- contexts of a load are left out: the cache hands them to the loader and reads nothing of them.
pub mod Loads
pub mod Evictions
pub mod Laws
pub mod Waits
pub mod Flights
pub mod Admissions
pub mod Completion
pub mod Reach
mod Tests
use policy_engine.Prelude.{
  arith, ℕ, zero, suc, ◌+◌, ◌-◌, ◌≡◌, ◌↔◌, Bool, true, false, ◌&&◌, ◌||◌, not, List, [], ◌∷◌,
  Option, none, some, ◌⊎◌, inl, inr, if◌then◌else◌, length, leb, ltb, ◌==◌, ==_iff,
}
use policy_engine.Prelude.Int.{ℤ, pos, negsuc}
use policy_engine.Prelude.Eq.{Eq}
use policy_engine.Prelude.Text.{Text, is_empty, text_eq, text_eq_iff}
use policy_engine.Prelude.Assoc.{lookup, insert, erase, touch}

pub record RevisionKey : Type 0 where
  pub namespace : Text
  pub revision : Text
  pub evaluator_abi : Text

abbrev revision_eq : RevisionKey → RevisionKey → Bool
revision_eq a b =
    text_eq a.namespace b.namespace
    && text_eq a.revision b.revision
    && text_eq a.evaluator_abi b.evaluator_abi

revision_eq_iff : (a b : RevisionKey) → (revision_eq a b ≡ true) ↔ (a ≡ b)
revision_eq_iff a b = ground (
  arith,
  text_eq_iff a.namespace b.namespace,
  text_eq_iff a.revision b.revision,
  text_eq_iff a.evaluator_abi b.evaluator_abi,
)

instance pub RevisionKey_Eq : Eq RevisionKey
RevisionKey_Eq = record { beq = revision_eq; beq_iff = revision_eq_iff }

instance unfoldable pub ℕ_Eq : Eq ℕ
ℕ_Eq = record { beq = λ a. λ b. a == b; beq_iff = ==_iff }

pub record RevisionLimits : Type 0 where
  pub max_entries : ℕ
  pub max_bytes : ℕ

pub data RevisionError : Type 0 where
  invalid_revision_key invalid_limits invalid_artifact nil_loader : RevisionError
  loader_panic loader_error context_error : RevisionError

abbrev pub valid_revision_key : RevisionKey → Bool
valid_revision_key k =
    not (is_empty k.namespace) && not (is_empty k.revision) && not (is_empty k.evaluator_abi)

abbrev pub new_revision_key : Text → Text → Text → RevisionError ⊎ RevisionKey
new_revision_key n r a =
    if is_empty n || is_empty r || is_empty a
    then inl invalid_revision_key
    else inr (record { namespace = n; revision = r; evaluator_abi = a })

-- weight.go
abbrev pub approximate_revision_overhead : ℕ
approximate_revision_overhead = 128

abbrev pub approximate_revision_bytes : RevisionKey → ℕ → ℕ
approximate_revision_bytes k encoded =
    approximate_revision_overhead
    + length k.namespace
    + length k.revision
    + length k.evaluator_abi
    + encoded

-- A is the DSL library's artifact.
pub record HydratedRevision (A : Type 0) : Type 0 where
  pub artifact : A
  pub approximate_bytes : ℕ

pub record RevisionEntry (A : Type 0) : Type 0 where
  pub value : HydratedRevision A
  pub active : Bool

-- `outcome` is `none` until `done` is closed.
pub record RevisionCall (A : Type 0) : Type 0 where
  pub call_key : RevisionKey
  pub waiters : ℕ
  pub abandoned : Bool
  pub outcome : Option (RevisionError ⊎ HydratedRevision A)

pub record RevisionCache (A : Type 0) : Type 0 where
  pub limits : RevisionLimits
  pub entries : List (RevisionKey × RevisionEntry A)
  pub inflight : List (RevisionKey × ℕ)
  pub bytes : ℕ
  pub calls : List (ℕ × RevisionCall A)
  pub next_call : ℕ

-- How the loader ends: the panic that `loadRevision` recovers, an error, or an artifact, `none` a nil one.
pub data LoaderResult (A : Type 0) : Type 0 where
  panicked failed : LoaderResult A
  returned : Option A → LoaderResult A

-- What a caller of `GetOrLoad` gets before it waits.
pub data Entered (A : Type 0) : Type 0 where
  refused : RevisionError → Entered A
  hit : HydratedRevision A → Entered A
  waits : ℕ → Entered A

module _ {A : Type 0} where
  abbrev pub new_revision_cache : ℤ → ℤ → RevisionError ⊎ RevisionCache A
  new_revision_cache (negsuc n) b = inl invalid_limits
  new_revision_cache (pos n) (negsuc b) = inl invalid_limits
  new_revision_cache (pos n) (pos b) = inr (record {
    limits = record { max_entries = n; max_bytes = b };
    entries = [];
    inflight = [];
    bytes = 0;
    calls = [];
    next_call = 0;
  })

  abbrev pub with_entries :
      RevisionCache A → List (RevisionKey × RevisionEntry A) → ℕ → RevisionCache A
  with_entries c m b = record {
    limits = c.limits;
    entries = m;
    inflight = c.inflight;
    bytes = b;
    calls = c.calls;
    next_call = c.next_call;
  }

  abbrev pub with_calls :
      RevisionCache A → List (RevisionKey × ℕ) → List (ℕ × RevisionCall A) → RevisionCache A
  with_calls c f s = record {
    limits = c.limits;
    entries = c.entries;
    inflight = f;
    bytes = c.bytes;
    calls = s;
    next_call = c.next_call;
  }

  abbrev pub set_waiters : ℕ → RevisionCall A → RevisionCall A
  set_waiters n l = record {
    call_key = l.call_key;
    waiters = n;
    abandoned = l.abandoned;
    outcome = l.outcome;
  }

  abbrev pub set_abandoned : RevisionCall A → RevisionCall A
  set_abandoned l = record {
    call_key = l.call_key;
    waiters = 0;
    abandoned = true;
    outcome = l.outcome;
  }

  abbrev pub set_outcome : RevisionError ⊎ HydratedRevision A → RevisionCall A → RevisionCall A
  set_outcome o l = record {
    call_key = l.call_key;
    waiters = l.waiters;
    abandoned = l.abandoned;
    outcome = some o;
  }

  -- The entry nearest the back that is not active.
  abbrev pub last_inactive :
      List (RevisionKey × RevisionEntry A) → Option (RevisionKey × RevisionEntry A)
  last_inactive [] = none
  last_inactive ((k, e) ∷ m) = elim (last_inactive m) [
    | some x ↦ some x
    | none ↦ if e.active then none else some (k, e)
  ]

  abbrev pub back : List (RevisionKey × RevisionEntry A) → Option (RevisionKey × RevisionEntry A)
  back [] = none
  back (x ∷ []) = some x
  back (x ∷ y ∷ m) = back (y ∷ m)

  abbrev pub candidate :
      List (RevisionKey × RevisionEntry A) → Option (RevisionKey × RevisionEntry A)
  candidate m = elim (last_inactive m) [ some x ↦ some x | none ↦ back m ]

  abbrev pub remove_candidate :
      Option (RevisionKey × RevisionEntry A) → RevisionCache A → RevisionCache A
  remove_candidate none c = c
  remove_candidate (some (k, e)) c =
      with_entries c (erase k c.entries) (c.bytes - e.value.approximate_bytes)

  abbrev pub evict_one : RevisionCache A → RevisionCache A
  evict_one c = remove_candidate (candidate c.entries) c

  -- The condition of the eviction loop, for a value of w bytes that `max_bytes` admits.
  abbrev pub needs_room : ℕ → RevisionCache A → Bool
  needs_room w c =
      leb c.limits.max_entries (length c.entries) || ltb (c.limits.max_bytes - w) c.bytes

  -- The eviction loop, on fuel.
  abbrev pub evict_until : ℕ → ℕ → RevisionCache A → Option (RevisionCache A)
  evict_until zero w c = if needs_room w c then none else some c
  evict_until (suc n) w c =
      let rest = evict_until n w (evict_one c) in if needs_room w c then rest else some c

  abbrev pub push_entry :
      RevisionKey
      → HydratedRevision A
      → Option (RevisionCache A)
      → Option (HydratedRevision A × RevisionCache A)
  push_entry k v none = none
  push_entry k v (some c) = some (
    v,
    with_entries c ((k, record { value = v; active = false }) ∷ c.entries)
        (c.bytes + v.approximate_bytes),
  )

  abbrev pub admit_found :
      Option (RevisionEntry A)
      → RevisionKey
      → HydratedRevision A
      → RevisionCache A
      → Option (HydratedRevision A × RevisionCache A)
  admit_found (some e) k v c = some (e.value, with_entries c (touch k e c.entries) c.bytes)
  admit_found none k v c =
      if c.limits.max_entries == 0
        || c.limits.max_bytes == 0
        || ltb c.limits.max_bytes v.approximate_bytes
      then some (v, c)
      else push_entry k v (evict_until (length c.entries) v.approximate_bytes c)

  abbrev pub admit :
      RevisionKey
      → HydratedRevision A
      → RevisionCache A
      → Option (HydratedRevision A × RevisionCache A)
  admit k v c = admit_found (lookup k c.entries) k v c

  abbrev pub set_active_found :
      Option (RevisionEntry A) → RevisionKey → Bool → RevisionCache A → RevisionCache A
  set_active_found none k b c = c
  set_active_found (some e) k b c =
      with_entries c (insert k (record { value = e.value; active = b }) c.entries) c.bytes

  abbrev pub set_active : RevisionKey → Bool → RevisionCache A → RevisionCache A
  set_active k b c =
      if not (valid_revision_key k) then c else set_active_found (lookup k c.entries) k b c
