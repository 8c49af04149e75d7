-- ===== src/Drift.antt =====
-- monitoring/drift: the three detectors, the check that runs them, and its table of alerts.
pub mod Buckets
pub mod Counts
pub mod Detectors
pub mod Edges
pub mod Runner
pub mod Sampling
pub mod Reports
pub mod Alerts
mod Tests
