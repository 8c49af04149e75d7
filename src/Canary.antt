-- ===== src/Canary.antt =====
-- monitoring/canary/evaluator.py and monitoring/scripts/run_canary_evaluator.py: the verdict on a
-- challenger, and the job that records it and acts on the registry, the champion and the router.
pub mod Types
pub mod Query
pub mod Streak
pub mod Evaluator
pub mod Verdicts
pub mod History
pub mod Isolation
pub mod Rollout
pub mod Audit
pub mod Champions
pub mod Effects
pub mod Restart
mod Tests
mod Rounds
