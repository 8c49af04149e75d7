-- ===== src/Loading.antt =====
-- training/scripts/load_features_to_redis.py: the rows that it stores, the store, and the check that
-- it ends with. The batches are those of Training.Loader.
pub mod Redis
pub mod Storage
pub mod Rows
pub mod Sanity
mod Tests
