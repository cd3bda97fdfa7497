-- ===== src/Contracts.antt =====
-- policy.go, events.go and data.go: the constructors of requests, responses and stored records that the
-- store calls, with their validation.
pub mod Slots
pub mod Events
use policy_engine.Prelude.{ℕ}
use policy_engine.Prelude.Int.{pos}
use policy_engine.Budget.{BudgetCounter}

-- `budgetCounter{max: …}`
abbrev pub fresh_budget : ℕ → BudgetCounter
fresh_budget maximum = record { used = pos 0; limit = pos maximum }
