-- ===== src/Kafka.antt =====
-- src/streaming_platform/kafka: what the wrappers make of the client library's answers.
pub mod Consumer
pub mod Dlq
pub mod Producer
