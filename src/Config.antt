-- ===== src/Config.antt =====
-- monitoring/common/config.py: the settings of the jobs, from the environment or their defaults.
pub mod Settings
mod Tests
