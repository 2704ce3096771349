-- ===== src/Generator/Factory.antt =====
-- generator/factory.py: `EventFactory`.
pub mod Draws
pub mod Payloads
pub mod Mutations
pub mod History
pub mod Remembered
