-- ===== src/Processor.antt =====
-- services/processor: events become rows, rows are normalized, validated and deduplicated, and
-- every outcome is published. What the service takes from Polars is the interface `Polars`.
pub mod Columns
pub mod Dedup
pub mod Validation
pub mod Events
pub mod Pipeline
pub mod Tests
