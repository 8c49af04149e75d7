-- ===== src/Champion.antt =====
-- training/scripts/evaluate.py and training/src/train.py: the champion's last fit and its metrics.
pub mod Evaluate
pub mod Holdout
mod Tests
