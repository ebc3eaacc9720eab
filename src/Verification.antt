-- ===== src/Verification.antt =====
-- internal/verification: the commands that check a repository before its changes are committed.
pub mod Definition
pub mod Approval
mod Records
pub mod State
pub mod Runner
mod Tests
