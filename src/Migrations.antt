-- ===== src/Migrations.antt =====
-- monitoring/scripts/apply_migrations.py: the files are applied in order, each at most once.
pub mod Apply
pub mod Order
mod Tests
