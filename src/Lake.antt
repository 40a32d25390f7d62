-- ===== src/Lake.antt =====
-- The data lake: the keys of its files, the object storage, the writers and the compactor.
pub mod PartitionKey
pub mod Storage
pub mod Schema
pub mod Writer
mod Memory
mod Tests
pub mod Compactor
