-- ===== src/Shadow.antt =====
-- monitoring/shadow/comparator.py and monitoring/scripts/run_shadow_comparator.py.
pub mod Comparator
pub mod Confusion
pub mod Summaries
mod Tests
