-- ===== src/Archive.antt =====
-- The reader of repository archives: indexing/archive.py.
pub mod Paths
pub mod Model
pub mod Reading
pub mod Names
pub mod Files
pub mod Accepted
pub mod Ending
mod Tests
