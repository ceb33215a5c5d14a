-- ===== src/Scheduler/Soundness.antt =====
-- About the task table over the cycles of the worker: internal/scheduler.
pub mod Origins
pub mod Rows
pub mod Runs
pub mod Reachable
