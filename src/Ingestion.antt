-- ===== src/Ingestion.antt =====
-- services/ingestion: the cycles that fetch from the sources and publish to Kafka.
pub mod Runner
mod Tests
