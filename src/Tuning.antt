-- ===== src/Tuning.antt =====
-- training/src/tune.py, training/scripts/tune.py and the study of
-- monitoring/scripts/train_challenger.py.
pub mod Space
pub mod Study
pub mod Trials
pub mod Resumption
pub mod Objective
pub mod Pruning
pub mod Script
mod Tests
