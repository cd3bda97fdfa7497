-- ===== src/Index.antt =====
-- store/memory/indexed.go: the persistent search trees behind the in-memory store.
pub mod Comparison
pub mod Avl
pub mod Keys
pub mod Revisions
pub mod Tuples
pub mod Attributes
pub mod Tries
pub mod Copies
mod Tests
