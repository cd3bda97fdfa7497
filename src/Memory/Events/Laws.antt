-- ===== src/Memory/Events/Laws.antt =====
-- The event log: sequences ascend, retention never drops an event silently, and pages are exact.
use policy_engine.Prelude.{
  arith, ℕ, zero, suc, ◌-◌, ◌≤◌, ◌<◌, ◌≡◌, refl, ap, min, Bool, false, List, [], ◌∷◌, ◌++◌, Option,
  none, some, if◌then◌else◌, length, get_elem?, take, drop, ltb, ◌==◌,
}
use policy_engine.Memory.Events.{
  EventRecord, EventState, first_index, high_water, cut_events, retention_cut, prune_events,
}

-- Sequences above `low`, each above the one before.
abbrev pub Ascends : ℕ → List EventRecord → Type 0
Ascends low [] = Unit
Ascends low (e ∷ es) = (low < e.sequence) × Ascends e.sequence es

-- The retained events ascend, above what has expired.
abbrev pub IsLog : EventState → Type 0
IsLog s = Ascends s.expired_through s.values

-- The events after a position.
abbrev pub after : ℕ → List EventRecord → List EventRecord
after p [] = []
after p (e ∷ es) = let rest = after p es in if ltb p e.sequence then e ∷ rest else rest

Ascends-weaken : (m n : ℕ) (es : List EventRecord) → m ≤ n → Ascends n es → Ascends m es
Ascends-weaken m n [] l a = tt
Ascends-weaken m n (e ∷ es) l a = ground arith

Ascends-drop :
    (n low : ℕ) (e : EventRecord) (es : List EventRecord)
    → Ascends low es
    → get_elem? es n ≡ some e
    → (low < e.sequence) × Ascends e.sequence (drop (suc n) es)
Ascends-drop n low e [] a h = ground arith
Ascends-drop zero low e (f ∷ es) a h = ground arith
Ascends-drop (suc n) low e (f ∷ es) a h = ground (arith, Ascends-drop n f.sequence e es a.1 h)

-- What is dropped is not after its last sequence.
after-drop :
    (n low p : ℕ) (e : EventRecord) (es : List EventRecord)
    → Ascends low es
    → get_elem? es n ≡ some e
    → e.sequence ≤ p
    → after p (drop (suc n) es) ≡ after p es
after-drop n low p e [] a h l = ground arith
after-drop zero low p e (f ∷ es) a h l = ground arith
after-drop (suc n) low p e (f ∷ es) a h l =
    ground (arith, after-drop n f.sequence p e es a.1 h l, Ascends-drop n f.sequence e es a.1 h)

-- s without events that it marks as expired.
pub record Retains (s t : EventState) : Type 0 where
  pub log : IsLog t
  pub forward : s.expired_through ≤ t.expired_through
  pub nothing_lost : (p : ℕ) → t.expired_through ≤ p → after p t.values ≡ after p s.values

Retains-refl : (s : EventState) → IsLog s → Retains s s
Retains-refl s i = record { log = i; forward = omega arith; nothing_lost = λ p. λ l. refl }

cut_events-Retains :
    (n : ℕ) (o : Option EventRecord) (s : EventState)
    → IsLog s
    → get_elem? s.values n ≡ o
    → Retains s (cut_events (suc n) o s)
cut_events-Retains n none s i h = Retains-refl s i
cut_events-Retains n (some e) s i h =
    let d = Ascends-drop n s.expired_through e s.values i h in
    record {
      log = ground (arith, d);
      forward = omega arith;
      nothing_lost = λ p. λ l. after-drop n s.expired_through p e s.values i h (omega arith);
    }

suc_sub_one : (n : ℕ) → suc n - 1 ≡ n
suc_sub_one n = omega arith

suc_not_zero : (n : ℕ) → (suc n == 0) ≡ false
suc_not_zero n = ground arith

prune_at :
    (cut : ℕ) (s : EventState)
    → IsLog s
    → Retains s (if cut == 0 then s else cut_events cut (get_elem? s.values (cut - 1)) s)
prune_at zero s i = Retains-refl s i
prune_at (suc n) s i =
    rw (suc_sub_one n, suc_not_zero n) (cut_events-Retains n (get_elem? s.values n) s i refl)

-- Retention keeps a log a log, only moves the expiry mark forward, and drops no event behind a
-- position that is not expired.
pub prune_events-Retains : (now : ℕ) (s : EventState) → IsLog s → Retains s (prune_events now s)
prune_events-Retains now s i = prune_at (retention_cut now s.values) s i

min_zero : (n : ℕ) → min 0 n ≡ 0
min_zero n = omega arith

zero_min : (n : ℕ) → min n 0 ≡ 0
zero_min n = omega arith

min-suc : (m n : ℕ) → min (suc m) (suc n) ≡ suc (min m n)
min-suc m n = omega arith

-- Above any mark that the events are above, their last sequence is the high-water mark.
high_water-raise :
    (m n : ℕ) (e : EventRecord) (es : List EventRecord)
    → m < e.sequence
    → n < e.sequence
    → Ascends e.sequence es
    → high_water m (e ∷ es) ≡ high_water n (e ∷ es)
high_water-raise m n e [] h k a = omega arith
high_water-raise m n e (f ∷ es) h k a =
    high_water-raise m n f es (omega (arith, a.0)) (omega (arith, a.0)) a.1

pub Ascends-append :
    (low : ℕ) (e : EventRecord) (es : List EventRecord)
    → Ascends low es
    → high_water low es < e.sequence
    → Ascends low (es ++ (e ∷ []))
Ascends-append low e [] a h = ground arith
Ascends-append low e (f ∷ []) a h = ground arith
Ascends-append low e (f ∷ g ∷ es) a h = (
  a.0,
  Ascends-append f.sequence e (g ∷ es) a.1
      (rw (high_water-raise f.sequence low g es a.1.0 (omega (arith, a.0, a.1.0)) a.1.1) h),
)

after-append : (p : ℕ) (es fs : List EventRecord) → after p (es ++ fs) ≡ after p es ++ after p fs
after-append p [] fs = refl
after-append p (e ∷ es) fs = ground (arith, after-append p es fs)

after-all : (p low : ℕ) (es : List EventRecord) → Ascends low es → p ≤ low → after p es ≡ es
after-all p low [] a l = refl
after-all p low (e ∷ es) a l = ground (arith, after-all p e.sequence es a.1)

-- The first index after a position cuts off what is after it.
pub drop-first_index :
    (p low : ℕ) (es : List EventRecord)
    → Ascends low es
    → drop (first_index (λ e. ltb p e.sequence) es) es ≡ after p es
drop-first_index p low [] a = refl
drop-first_index p low (e ∷ es) a =
    ground (arith, drop-first_index p e.sequence es a.1, after-all p e.sequence es a.1)

pub first_index_le :
    (test : EventRecord → Bool) (es : List EventRecord) → first_index test es ≤ length es
first_index_le test [] = omega arith
first_index_le test (e ∷ es) = ground (arith, first_index_le test es)

pub take-min : (n : ℕ) (es : List EventRecord) → take (min n (length es)) es ≡ take n es
take-min zero es = rw (min_zero (length es)) refl
take-min (suc n) [] = rw (zero_min (suc n)) refl
take-min (suc n) (e ∷ es) = rw (min-suc n (length es)) (ap (◌∷◌ e) (take-min n es))
