-- ===== src/Calls.antt =====
-- Calls of paid providers under checks, quotas and receipts, which services/search.py and
-- services/answers.py make.
pub mod Model
pub mod Conduct
pub mod Paying
