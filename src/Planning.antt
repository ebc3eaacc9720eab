-- ===== src/Planning.antt =====
-- internal/planning: commit plans and the validator that every plan passes before approval.
pub mod Types
pub mod Sensitive
pub mod Assignment
pub mod Validate
pub mod Telemetry
pub mod Grouping
pub mod Evidence
pub mod Strict
pub mod Attempt
pub mod Invoke
pub mod ThreePhase
mod Tests
