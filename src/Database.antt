-- ===== src/Database.antt =====
-- src/streaming_platform/database: the tables, and the two repositories that write them.
pub mod Models
pub mod Columns
pub mod OrderRepository
pub mod LogRepository
