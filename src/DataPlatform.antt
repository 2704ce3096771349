-- ===== src/DataPlatform.antt =====
-- The tools of src/data_platform: policies on cost, contracts and incidents.
pub mod Values
pub mod Results
pub mod CostPolicy
pub mod Redaction
pub mod Incidents
pub mod Metadata
pub mod SlimCi
pub mod Contracts
