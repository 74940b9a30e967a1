-- ===== src/Limits.antt =====
-- The rate limits of core/rate_limits.py.
pub mod Model
pub mod Counting
mod Tests
