-- ===== src/Metrics.antt =====
-- training/src/evaluate.py: the threshold and the metrics of a model, and its calibration.
pub mod Thresholds
pub mod Scores
pub mod Kept
pub mod Optimum
pub mod Bounds
mod Tests
