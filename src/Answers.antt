-- ===== src/Answers.antt =====
-- The answer service: services/answers.py and generation/contracts.py.
pub mod Contracts
pub mod Model
pub mod Paying
pub mod Grounded
mod Tests
