-- ===== src/Consumer.antt =====
-- src/streaming_platform/consumer: retries, offsets, error routing and the two consumers.
pub mod Offsets
pub mod Retry
pub mod World
pub mod Errors
pub mod Order
pub mod Log
