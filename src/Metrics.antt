-- ===== src/Metrics.antt =====
-- src/streaming_platform/metrics: per-minute aggregation of access logs, and statistics of reports.
pub mod LogAggregation
pub mod Doubles
pub mod Statistics
