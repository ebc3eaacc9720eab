-- ===== src/Gitstate.antt =====
-- internal/gitstate: the snapshot of the changes that a plan may commit.
pub mod Types
pub mod Errors
pub mod RepoPath
pub mod Status
pub mod Snapshot
pub mod Collect
pub mod Sensitive
mod Tests
