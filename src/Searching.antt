-- ===== src/Searching.antt =====
-- The search service: services/search.py and retrieval/context.py.
pub mod Model
pub mod Service
pub mod Paying
pub mod Within
pub mod Tests
