-- ===== src/App.antt =====
-- The application layer, internal/app: `WorkBudget` is the work budget of a batch and the verifier
-- byte count of batch.go.
pub mod WorkBudget
mod Tests
