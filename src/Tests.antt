-- ===== src/Tests.antt =====
-- Examples: each theorem of the results at a concrete input.
pub mod Fixtures
pub mod Orders
pub mod Logs
pub mod LogRuns
pub mod Generator
pub mod Policies
pub mod Incidents
pub mod Metadata
pub mod SlimCi
pub mod Contracts
pub mod Gated
