-- ===== src/Runs.antt =====
-- Answer runs: the durable runs of a conversation, their events, messages and previews.
pub mod Model
pub mod Events
pub mod Conversation
pub mod Trace
pub mod Invariant
pub mod Worker
pub mod Expiry
pub mod Owed
pub mod Moves
pub mod Publish
pub mod System
pub mod Replay
pub mod Final
pub mod Lives
pub mod Service
pub mod Tests
