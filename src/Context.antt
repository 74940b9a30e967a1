-- ===== src/Context.antt =====
-- What a model is sent and what it may cite: generation/history.py and generation/context.py.
pub mod Model
pub mod Longest
pub mod Citations
mod Tests
