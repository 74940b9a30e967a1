-- ===== src/Jobs.antt =====
-- The durable jobs of backend/app/jobs: imports, source indexes and search indexes share their
-- lease columns, and state.py is generic in the model.
pub mod Model
pub mod Lease
pub mod Dispatcher
pub mod Control
pub mod System
pub mod Invariant
pub mod Claiming
pub mod Reachable
pub mod Fencing
mod Exclusive
pub mod Progress
pub mod Terminal
mod Tests
