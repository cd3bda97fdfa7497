-- ===== src/Cost/Order.antt =====
-- Map iteration order does not change a cost: cost.go promises it for the maps of a request.
use mathlib.Core.Logic.{∥∥₁_elim}
use mathlib.Core.List.{Perm, Permᴰ}
use native.Mathlib.Nat.{ℕ_set}
use policy_engine.Prelude.{ℕ, ◌+◌, ◌≤◌, ◌≡◌, refl, ◌∙◌, sym, ap, List, arith}
use policy_engine.Prelude.Text.{Text}
use policy_engine.Budget.Laws.{counter}
use policy_engine.Model.Data.{Value}
use policy_engine.Cost.Parts.{add_arguments_cost}
use policy_engine.Cost.Requests.{add_caller_cost}
use policy_engine.Cost.Sizes.{sum_of, argument_size, text_size}
use policy_engine.Cost.Exact.Parts.{arguments-Costs}
use policy_engine.Cost.Exact.Requests.{caller-Costs}

sum_of_reordered :
    {A : Type 0} (size : A → ℕ) {xs ys : List A} → Permᴰ xs ys → sum_of size xs ≡ sum_of size ys
unfolding sum_of
sum_of_reordered size Permᴰ.nil = refl
sum_of_reordered size (Permᴰ.cons e p) = omega (arith, ap size e, sum_of_reordered size p)
sum_of_reordered size (Permᴰ.swap e f) = omega (arith, ap size e, ap size f)
sum_of_reordered size (Permᴰ.trans p q) = sum_of_reordered size p ∙ sum_of_reordered size q

sum_of-perm :
    {A : Type 0} (size : A → ℕ) {xs ys : List A} → Perm xs ys → sum_of size xs ≡ sum_of size ys
sum_of-perm size p = ∥∥₁_elim p (ℕ_set _ _) (sum_of_reordered size)

-- Whatever order a loop over the arguments takes, and whatever order a loop over the caller's
-- attributes takes, the routine gives the same answer and the same count, at every counter whose
-- use is within its limit.
pub costs_unordered :
    (limit used : ℕ) (id : Text) (xs ys : List (Text × Value)) (us vs : List (Text × Text))
    → used ≤ limit
    → Perm xs ys
    → Perm us vs
    → (add_arguments_cost (counter used limit) xs ≡ add_arguments_cost (counter used limit) ys)
      × (add_caller_cost (counter used limit) id us ≡ add_caller_cost (counter used limit) id vs)
costs_unordered limit used id xs ys us vs h p q = (
  (arguments-Costs xs).exact limit used h
      ∙ rw (sum_of-perm argument_size p) (sym ((arguments-Costs ys).exact limit used h)),
  (caller-Costs id us).exact limit used h
      ∙ rw (sum_of-perm (λ (entry : Text × Text). text_size entry.0 + text_size entry.1) q)
          (sym ((caller-Costs id vs).exact limit used h)),
)
