-- ===== src/Consumer/Log.antt =====
-- consumer/log.py: the log consumer. Logging is left out, but for the retry warnings.
pub mod State
pub mod Processor
pub mod Flush
pub mod Runner
pub mod Durable
pub mod Lifted
pub mod Tracked
pub mod Flushing
pub mod Storing
pub mod Committing
pub mod Buffering
pub mod Processing
pub mod Safety
pub mod Runs
pub mod Rebalance
pub mod NoLoss
unfoldable pub use State.*
unfoldable pub use Processor.*
unfoldable pub use Flush.*
unfoldable pub use Runner.*
