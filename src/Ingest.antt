-- ===== src/Ingest.antt =====
-- The ingestion of updates: internal/ingest.
pub mod Kind
pub mod Router
pub mod State
pub mod Attempt
pub mod Loop
pub mod Settled
pub mod Cycle
pub mod Batch
pub mod Progress
pub mod Gate
mod Tests
