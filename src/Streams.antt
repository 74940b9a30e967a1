-- ===== src/Streams.antt =====
-- The event stream of an answer run: services/run_stream.py.
pub mod Model
pub mod Polling
pub mod Ending
mod Tests
