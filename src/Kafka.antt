-- ===== src/Kafka.antt =====
-- libs/common/kafka_consumer.py, libs/common/kafka_errors.py and libs/observability/kafka_metrics.py.
pub mod Broker
pub mod Client
pub mod Consumer
mod Tests
