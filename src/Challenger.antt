-- ===== src/Challenger.antt =====
-- monitoring/scripts/train_challenger.py and recompute_challenger_metrics.py.
pub mod Frames
pub mod Models
pub mod Graph
pub mod Stripping
pub mod Exporting
pub mod Parity
pub mod Fitting
pub mod Recompute
pub mod Reloading
pub mod Training
pub mod Agreement
pub mod Independence
pub mod Leaks
mod Tests
