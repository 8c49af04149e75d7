-- ===== src/Registry.antt =====
-- monitoring/scripts/register_models.py and the table models of migration 003.
pub mod Table
pub mod Register
pub mod Roles
pub mod Main
pub mod Guarantees
pub mod Champions
mod Tests
