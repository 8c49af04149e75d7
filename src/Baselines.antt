-- ===== src/Baselines.antt =====
-- training/src/baselines.py and training/scripts/baselines.py.
pub mod Models
pub mod Sampling
pub mod Stratified
pub mod Times
pub mod Shares
pub mod Runs
mod Tests
