-- ===== src/Generator.antt =====
-- src/streaming_platform/generator: the events, their deliveries, and the run that sends them.
pub mod Records
pub mod Ranges
pub mod Deliveries
pub mod Factory
pub mod Report
pub mod Runner
