-- ===== src/Pipeline.antt =====
-- main.py and monitoring/main.py: the steps of the two pipelines, chosen by flags, run in order.
pub mod Steps
pub mod Selection
pub mod Runs
mod Tests
