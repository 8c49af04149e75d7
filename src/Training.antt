-- ===== src/Training.antt =====
-- training/src and training/scripts: the time-series split with its gap, the features of a
-- transaction, the encoder of categories and the split into train and test rows.
pub mod Splits
pub mod Purging
pub mod Features
pub mod Encoder
pub mod Decoding
pub mod Preprocess
pub mod Separation
pub mod Columns
pub mod Categoricals
pub mod Export
pub mod Rewiring
pub mod Loader
pub mod Batches
pub mod Agreement
pub mod Canonical
pub mod Prepare
pub mod Reordered
pub mod Prepared
pub mod Agreed
pub mod Exporter
pub mod Selection
pub mod Adversarial
pub mod Dropped
pub mod Champions
mod Tests
mod Tables
mod Refits
mod Graphs
