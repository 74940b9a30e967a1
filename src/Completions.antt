-- ===== src/Completions.antt =====
-- The stream of a model's answer: generation/openai_stream.py.
pub mod Model
pub mod Streaming
mod Tests
