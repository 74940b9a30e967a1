-- ===== src/Ranking.antt =====
-- The fusion of search channels: retrieval/ranking.py.
pub mod Model
pub mod Floats
pub mod Table
pub mod Fusing
mod Tests
