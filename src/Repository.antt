-- ===== src/Repository.antt =====
-- internal/repository: the initialization of a repository and its .gitignore.
pub mod Init
mod Tests
