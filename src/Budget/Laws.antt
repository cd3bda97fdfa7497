-- ===== src/Budget/Laws.antt =====
-- What the counter of limits.go computes, and how the charges of a sequence of calls add up.
use policy_engine.Prelude.{
  ℕ, ◌+◌, ◌*◌, ◌/◌, ◌^◌, ◌≤◌, ◌≡◌, ◌↔◌, leb, ◌==◌, false, if◌then◌else◌, arith, zero, suc, ◌<◌, ltb,
  Bool-cases, inl, inr,
}
use native.Mathlib.Nat.{div-lt_iff_lt-mul, mul_comm}
use mathlib.Core.Path.{subst}
use policy_engine.Prelude.Int.{pos, wrap_int-small}
use policy_engine.Errors.{Result, ok, err, ◌>>=◌, resource_exhausted}
use policy_engine.Budget.{BudgetCounter, add, add_many}

-- A counter in its range, with natural numbers.
abbrev pub counter : ℕ → ℕ → BudgetCounter
counter used limit = record { used = pos used; limit = pos limit }

-- The specification: `n` more are taken if they fit, and refused otherwise.
pub charge : ℕ → ℕ → ℕ → Result BudgetCounter
charge limit used n =
    if leb (used + n) limit then ok (counter (used + n) limit) else err resource_exhausted

-- The routine charges exactly `n`, whatever was used and whatever the limit is.
pub record Costs (f : BudgetCounter → Result BudgetCounter) (n : ℕ) : Type 0 where
  pub exact : (limit used : ℕ) → used ≤ limit → f (counter used limit) ≡ charge limit used n

-- At any counter in its range, also one that is overdrawn.
add-charge : (limit used n : ℕ) → add (counter used limit) (pos n) ≡ charge limit used n
unfolding add charge
add-charge limit used n = ground arith

pub add-Costs : (n : ℕ) → Costs (λ b. add b (pos n)) n
add-Costs n = record { exact = λ limit used h. add-charge limit used n }

-- Two charges in a row are one of the sum: the first refusal ends both ways of counting.
charge-then :
    (limit used n k : ℕ) (r : BudgetCounter → Result BudgetCounter)
    → (used + n ≤ limit → r (counter (used + n) limit) ≡ charge limit (used + n) k)
    → (charge limit used n >>= r) ≡ charge limit used (n + k)
unfolding charge
charge-then limit used n k r h = ground arith

pub then-Costs :
    {f g : BudgetCounter → Result BudgetCounter} {n k : ℕ}
    → Costs f n
    → Costs g k
    → Costs (λ b. f b >>= g) (n + k)
then-Costs {f} {g} {n} {k} hf hg = record {
  exact = λ limit used h.
      rw (hf.exact limit used h) (charge-then limit used n k g (hg.exact limit (used + n)));
}

pub eq-Costs : {f : BudgetCounter → Result BudgetCounter} {n k : ℕ} → Costs f n → n ≡ k → Costs f k
eq-Costs {f} h e = subst (Costs f) e h

-- No charge at all.
pub ok-Costs : Costs ok 0
unfolding charge
ok-Costs = record { exact = λ limit used h. ground arith }

-- The division refuses what does not fit, so the product that is charged does not wrap around.
charge_many :
    (limit used count size : ℕ)
    → (count * size ≤ limit → count * size < 2 ^ 63)
    → add_many (counter used limit) (pos count) (pos size) ≡ charge limit used (count * size)
unfolding add_many charge
charge_many limit used zero size w =
    let small = wrap_int-small (0 * size) (omega arith) in
    ground (arith, small, add-charge limit used (0 * size))
charge_many limit used (suc count) size w =
    let fits : (limit / suc count < size) ↔ (limit < size * suc count) =
      div-lt_iff_lt-mul (omega arith) in
    let turned : suc count * size ≡ size * suc count = mul_comm (suc count) size in
    elim (Bool-cases (ltb (limit / suc count) size)) [
      | inl over ↦
          let big : limit < suc count * size = rw turned (fits.0 (ground arith)) in ground arith
      | inr under ↦
          let inside : suc count * size ≤ limit = ground (arith, fits, turned) in
          let small = wrap_int-small (suc count * size) (w inside) in
          let nonzero : (suc count == 0) ≡ false = ground arith in
          rw (nonzero, under, small) (add-charge limit used (suc count * size))
    ]

-- For a limit that an integer of 64 bits holds, and any count and size from zero up: `addMany` takes
-- the exact product of count and size if that much is left, and refuses otherwise, also where the
-- product does not fit 64 bits and the multiplication of the code would wrap around.
pub add_many-charge :
    (limit used count size : ℕ)
    → limit < 2 ^ 63
    → add_many (counter used limit) (pos count) (pos size) ≡ charge limit used (count * size)
add_many-charge limit used count size h = charge_many limit used count size (λ l. omega arith)

pub add_many-Costs :
    (count size : ℕ)
    → count * size < 2 ^ 63
    → Costs (λ b. add_many b (pos count) (pos size)) (count * size)
add_many-Costs count size h = record {
  exact = λ limit used l. charge_many limit used count size (λ m. h);
}
