-- ===== src/Trust.antt =====
-- internal/trust: which verification definition the user approved for a repository.
pub mod Store
pub mod Remembers
mod Tests
