-- ===== src/Chunks.antt =====
-- The chunker of indexing/chunks.py.
pub mod Model
pub mod Cutting
pub mod Spans
pub mod Tiling
pub mod Lines
pub mod Source
mod Tests
