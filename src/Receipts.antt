-- ===== src/Receipts.antt =====
-- The receipts of paid calls: services/usage_receipts.py.
pub mod Model
pub mod Settling
pub mod Stopping
mod Tests
