-- ===== src/Warehouse.antt =====
-- warehouse/loader: Silver rows become rows of the warehouse.
pub mod Rows
pub mod Database
pub mod Upserts
pub mod Loader
mod Tests
