-- ===== src/Tg.antt =====
-- The Telegram client: internal/tg.
pub mod Schedule
pub mod Limiter
pub mod Attempt
mod Tests
