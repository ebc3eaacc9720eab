-- ===== src/Cli.antt =====
-- cmd/commiter and internal/cli: the command line and the cycle that it runs.
pub mod ExitCode
pub mod Snapshots
pub mod Options
pub mod Host
pub mod Prepare
pub mod Consent
pub mod Verify
pub mod Finish
pub mod Cycle
mod Tests
