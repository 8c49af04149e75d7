-- ===== src/Labels.antt =====
-- monitoring/labels/simulator.py, run by monitoring/scripts/run_label_joiner.py: late labels.
pub mod Simulator
pub mod Loop
pub mod Inserts
pub mod Soundness
pub mod Progress
pub mod Joiner
mod Tests
