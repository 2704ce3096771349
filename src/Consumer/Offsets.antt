-- ===== src/Consumer/Offsets.antt =====
-- consumer/offsets.py: `ContiguousOffsetTracker`. The lock is held for the whole of each method, so
-- a method is one step on the state.
pub mod Frontier
pub mod Tracker
pub mod Commit
pub mod History
unfoldable pub use Tracker.*
