-- ===== src/Cost.antt =====
-- cost.go: the deterministic byte costs that bound requests and responses. `Parts`, `Requests` and
-- `Responses` are its routines, `Sizes` the bytes that they account for, and the modules under
-- `Exact` show that each routine charges exactly that many.
pub mod Parts
pub mod Requests
pub mod Responses
pub mod Sizes
pub mod Exact
pub mod Charges
pub mod Order
mod Tests
