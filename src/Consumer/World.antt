-- ===== src/Consumer/World.antt =====
-- What the two consumers act on: the database, the dead-letter topic, the committed offsets, and
-- the coming answers of the services around them. Each kind of call takes its answers from a list
-- of its own; where a list has run out, the call succeeds, and a poll gives nothing.
pub mod Calls
unfoldable pub use Calls.*
