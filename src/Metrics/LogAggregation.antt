-- ===== src/Metrics/LogAggregation.antt =====
-- metrics/log_aggregation.py: aggregation keys, metric deltas, the buffer and its snapshots. The
-- buffer's lock is held for the whole of each method.
pub mod Delta
pub mod Buffer
pub mod Totals
pub mod Consistency
pub mod Coverage
pub mod Restore
unfoldable pub use Delta.*
unfoldable pub use Buffer.*
