-- ===== src/Model.antt =====
-- The values that the engine's components exchange.
pub mod Data
pub mod Requests
pub mod Records
