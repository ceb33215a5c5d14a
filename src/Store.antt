-- ===== src/Store.antt =====
-- The ledger: internal/store.
pub mod Books
pub mod Documents
pub mod Post
pub mod Move
mod Tests
