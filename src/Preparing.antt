-- ===== src/Preparing.antt =====
-- The worker that prepares a search index: `run_preparation` of jobs/prepare_search.py.
pub mod Model
pub mod Documents
pub mod Steps
pub mod Resuming
mod Tests
