-- ===== src/Commitexec.antt =====
-- internal/commitexec: the execution of an approved plan, commit by commit.
pub mod Host
pub mod Paths
pub mod Run
pub mod Index
pub mod Checks
pub mod Execute
pub mod Restore
pub mod Steps
pub mod Assigned
pub mod FileSet
pub mod Complete
mod Tests
