-- ===== src/Cost/Exact.antt =====
-- Each routine of cost.go charges the bytes of its specification, no more and no less.
pub mod Parts
pub mod Requests
pub mod Responses
