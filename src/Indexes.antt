-- ===== src/Indexes.antt =====
-- The static source index of an import: services/index.py and repositories/index.py.
pub mod Model
pub mod Restart
mod Tests
