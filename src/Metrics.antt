-- ===== src/Metrics.antt =====
-- internal/metrics: the measurements of one run.
pub mod Recorder
mod Totals
mod Tests
