-- ===== src/Cache/Revisions/Tests.antt =====
-- The compiled-revision cache at work: two callers of one load, and an eviction.
use policy_engine.Prelude.{arith, ℕ, ◌≡◌, refl, true, false, [], ◌∷◌, none, some, inl, inr}
use policy_engine.Prelude.Int.{pos, negsuc}
use policy_engine.Prelude.Text.{codes, text_eq}
use policy_engine.Prelude.Assoc.{lookup}
use policy_engine.Cache.Revisions.{
  RevisionKey, RevisionKey_Eq, ℕ_Eq, HydratedRevision, RevisionCall, RevisionCache, panicked,
  returned, loader_panic, new_revision_cache, evict_until, evict_one, invalid_limits,
}
use policy_engine.Cache.Revisions.Loads.{get_or_load, load_revision, complete_revision_load}
use policy_engine.Cache.Revisions.Laws.{IsRevisionCache}
use policy_engine.Cache.Revisions.Evictions.{IsStore, MakesRoom, evict_until-MakesRoom}
use policy_engine.Cache.Revisions.Completion.{Ends, complete_revision_load-Ends}
use policy_engine.Cache.Revisions.Reach.{
  Reaches, here, then_step, entered, Reaches-IsRevisionCache, new_revision_cache-IsRevisionCache,
  single_flight,
}

program : Unit {0}
unfolding RevisionKey_Eq ℕ_Eq text_eq
program = tt

-- The library's artifacts are numbers here.
abbrev key : ℕ → RevisionKey
key n = record { namespace = codes "acme"; revision = n ∷ []; evaluator_abi = codes "v1" }

abbrev small : ℕ → HydratedRevision ℕ
small n = record { artifact = n; approximate_bytes = 40 }

abbrev empty : RevisionCache ℕ
empty = record {
  limits = record { max_entries = 2; max_bytes = 100 };
  entries = [];
  inflight = [];
  bytes = 0;
  calls = [];
  next_call = 0;
}

-- Two callers wait for one load.
abbrev joined : RevisionCache ℕ
joined = (get_or_load false true (key 1) (get_or_load false true (key 1) empty).1).1

abbrev call : RevisionCall ℕ
call = record { call_key = key 1; waiters = 2; abandoned = false; outcome = none }

-- Two residents, the older one active.
abbrev full : RevisionCache ℕ
full = record {
  limits = record { max_entries = 2; max_bytes = 100 };
  entries =
      (key 2, record { value = small 2; active = false })
      ∷ (key 1, record { value = small 1; active = true })
      ∷ [];
  inflight = [];
  bytes = 80;
  calls = [];
  next_call = 0;
}

empty-IsRevisionCache : IsRevisionCache empty
empty-IsRevisionCache = new_revision_cache-IsRevisionCache (pos 2) (pos 100) empty refl

empty-joined : Reaches empty joined
empty-joined = then_step (then_step here (entered false true (key 1))) (entered false true (key 1))

full-IsStore : IsStore full
unfolding program
full-IsStore = record {
  distinct = (refl, (refl, tt));
  accounted = refl;
  entries_bounded = omega arith;
  bytes_bounded = omega arith;
}

-- The inactive entry goes first, though the active one is older.
active_stays : (evict_one full).entries ≡ (key 1, record { value = small 1; active = true }) ∷ []
unfolding program
active_stays = refl

loader_panics :
    load_revision {A = ℕ} (λ a. true) (λ a. some (codes "abc")) (key 1) panicked ≡ inl loader_panic
loader_panics = refl

weighed :
    load_revision {A = ℕ} (λ a. true) (λ a. some (codes "abc")) (key 1) (returned (some 7))
    ≡ inr (record { artifact = 7; approximate_bytes = 138 })
weighed = refl

negative_limits : new_revision_cache {A = ℕ} (pos 1) (negsuc 0) ≡ inl invalid_limits
negative_limits = refl

Reaches-IsRevisionCache_example : IsRevisionCache joined
Reaches-IsRevisionCache_example = Reaches-IsRevisionCache empty-IsRevisionCache empty-joined

complete_revision_load-Ends_example :
    Ends 0 call (inr (small 1)) joined (complete_revision_load 0 (inr (small 1)) joined)
unfolding program
complete_revision_load-Ends_example =
    complete_revision_load-Ends 0 call (inr (small 1)) joined
      (Reaches-IsRevisionCache empty-IsRevisionCache empty-joined) refl refl

single_flight_example : ◌≡◌ {A = ℕ} 0 0 × (lookup (key 1) joined.entries ≡ none)
unfolding program
single_flight_example =
    single_flight (pos 2) (pos 100) empty joined 0 0 call call refl empty-joined (refl, refl, refl)
      (refl, refl, refl) refl

evict_until-MakesRoom_example : MakesRoom 40 full (evict_until 2 40 full)
evict_until-MakesRoom_example =
    evict_until-MakesRoom 2 40 full full-IsStore (omega arith) (omega arith) (omega arith)
