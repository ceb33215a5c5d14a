-- ===== src/Scheduler.antt =====
-- The task scheduler: internal/scheduler.
pub mod Cadence
pub mod Task
pub mod Session
pub mod Registry
pub mod Settle
pub mod Claim
pub mod Execute
pub mod Drain
pub mod Worker
pub mod Schedule
pub mod Reconcile
pub mod Liveness
pub mod Soundness
pub mod GivesUp
mod Tests
