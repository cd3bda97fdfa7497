-- ===== src/Memory.antt =====
-- The in-memory store, store/memory, apart from its search trees.
pub mod Events
pub mod Cursors
pub mod Store
pub mod Slots
pub mod Writes
pub mod Publications
pub mod Interleavings
