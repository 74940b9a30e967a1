-- ===== src/Repositories.antt =====
-- A user's repositories: services/repository.py and repositories/repository.py.
pub mod Model
pub mod Limit
mod Others
mod Tests
