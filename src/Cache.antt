-- ===== src/Cache.antt =====
-- The process-local runtime caches, internal/cache.
pub mod Pointers
pub mod Revisions
