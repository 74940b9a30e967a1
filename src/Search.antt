-- ===== src/Search.antt =====
-- The preparation of the search index: its rows, its token budget, and its start and cancellation.
pub mod Model
pub mod Preparation
pub mod Budget
mod Steps
mod Tests
