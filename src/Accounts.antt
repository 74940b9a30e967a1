-- ===== src/Accounts.antt =====
-- Accounts and their sessions: services/auth.py.
pub mod Model
pub mod Sessions
mod Tests
