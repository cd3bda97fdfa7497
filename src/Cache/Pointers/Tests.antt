-- ===== src/Cache/Pointers/Tests.antt =====
-- The pointer cache at work on two slots.
use policy_engine.Prelude.{arith, ℕ, ◌≡◌, refl, List, [], ◌∷◌, some, inl}
use policy_engine.Prelude.Int.{pos, negsuc}
use policy_engine.Prelude.Text.{codes, text_eq}
use policy_engine.Cache.Pointers.{
  SlotKey, SlotKey_Eq, SlotPointer, AuthoritativeFill, PointerCache, new_pointer_cache,
  begin_authoritative_fill, complete, update_committed, pin, stale_pointer, invalid_limits,
  fill_busy,
}
use policy_engine.Cache.Pointers.Laws.{IsPointerCache}
use policy_engine.Cache.Pointers.History.{
  PointerCall, updates, begins, completes, pins, runs, Supersedes, new_pointer_cache-IsPointerCache,
  runs-IsPointerCache, runs-Supersedes,
}
use policy_engine.Cache.Pointers.Newest.{updates_for}
use policy_engine.Cache.Pointers.Completion.{Settled, complete-Settled}
use policy_engine.Prelude.Assoc.{lookup}

program : Unit {0}
unfolding SlotKey_Eq text_eq
program = tt

abbrev live : SlotKey
live = record { namespace = codes "acme"; slot = codes "live" }

abbrev shadow : SlotKey
shadow = record { namespace = codes "acme"; slot = codes "shadow" }

abbrev at : ℕ → SlotPointer
at g = record { revision = codes "r"; generation = g }

abbrev empty : PointerCache
empty = record { max_entries = 2; entries = []; fills = []; next_state = 0 }

abbrev fill : AuthoritativeFill
fill = record { fill_key = live; held = some 0 }

abbrev reserved : PointerCache
reserved = (begin_authoritative_fill live empty).1

abbrev between : List PointerCall
between = updates live (at 4) ∷ begins shadow ∷ begins live ∷ updates live (at 2) ∷ pins live ∷ []

abbrev resident : PointerCache
resident = runs (completes fill (at 3) ∷ []) (runs between reserved)

empty-IsPointerCache : IsPointerCache empty
empty-IsPointerCache = new_pointer_cache-IsPointerCache (pos 2) empty refl

-- The update in between supersedes what the fill read.
newer_update : pin live resident ≡ (some (record { pin_key = live; pinned = at 4 }), resident)
unfolding program
newer_update = refl

stale_update : (update_committed live (at 3) resident).0 ≡ some stale_pointer
unfolding program
stale_update = refl

busy_fill : (begin_authoritative_fill live reserved).0 ≡ inl fill_busy
unfolding program
busy_fill = refl

negative_limit : new_pointer_cache (negsuc 0) ≡ inl invalid_limits
negative_limit = refl

complete-Settled_example :
    Settled live (at 3) (updates_for live between) (complete fill (at 3) (runs between reserved))
unfolding program
complete-Settled_example =
    complete-Settled live (at 3) between 0 empty reserved empty-IsPointerCache refl
      (tt, (tt, (tt, (tt, (tt, tt))))) refl

runs-IsPointerCache_example :
    IsPointerCache (runs (begins live ∷ completes fill (at 3) ∷ between) empty)
runs-IsPointerCache_example =
    runs-IsPointerCache (begins live ∷ completes fill (at 3) ∷ between) empty empty-IsPointerCache

runs-Supersedes_example :
    (r : SlotPointer) × (lookup live (runs (updates live (at 6) ∷ pins live ∷ []) resident).entries
      ≡ some r)
    × Supersedes r (at 4)
unfolding program
runs-Supersedes_example =
    runs-Supersedes (updates live (at 6) ∷ pins live ∷ []) live (at 4) resident
      (runs-IsPointerCache
        (begins live
          ∷ updates live (at 4)
          ∷ begins shadow
          ∷ begins live
          ∷ updates live (at 2)
          ∷ pins live
          ∷ completes fill (at 3)
          ∷ [])
        empty empty-IsPointerCache)
      refl (ground arith, (ground arith, tt))
