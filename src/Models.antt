-- ===== src/Models.antt =====
-- Values that the platform's parts exchange: src/streaming_platform/models, the Kafka message
-- protocol of kafka/consumer.py and the coordinates of metrics/log_aggregation.py.
pub mod Json
pub mod Event
pub mod Message
