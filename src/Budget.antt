-- ===== src/Budget.antt =====
-- The counter of the aggregate byte and work budgets: `budgetCounter` of limits.go. A method that
-- mutates the counter returns it; what a counter holds after a refusal is never read by a caller.
pub mod Laws
use policy_engine.Prelude.{◌*◌, ◌/◌, Bool, ◌||◌, ◌&&◌, not, ltb, ◌==◌, if◌then◌else◌}
use policy_engine.Prelude.Int.{ℤ, ◌+ℤ◌, ◌-ℤ◌, ltb_ℤ, is_negative, pos_part, wrap_int}
use policy_engine.Errors.{Result, ok, err, resource_exhausted}

pub record BudgetCounter : Type 0 where
  pub used : ℤ
  pub limit : ℤ

unfoldable pub add : BudgetCounter → ℤ → Result BudgetCounter
add b size =
    if is_negative size
      || is_negative b.used
      || is_negative b.limit
      || ltb_ℤ b.limit size
      || ltb_ℤ (b.limit -ℤ size) b.used
    then err resource_exhausted
    else ok (record b { used = b.used +ℤ size })

-- `size > b.max/count` divides numbers that the tests before it have found not negative. The product
-- wraps around as Go's `int` does.
unfoldable pub add_many : BudgetCounter → ℤ → ℤ → Result BudgetCounter
unfolding wrap_int
add_many b count size =
    if is_negative count
      || is_negative size
      || is_negative b.used
      || is_negative b.limit
      || (not (pos_part count == 0) && ltb (pos_part b.limit / pos_part count) (pos_part size))
    then err resource_exhausted
    else add b (wrap_int (pos_part count * pos_part size))
