-- ===== src/Infrastructure/Sqlite.antt =====
-- crates/casegraph-infrastructure/src/sqlite_repository.rs on the schema of
-- crates/casegraph-infrastructure/migrations.
pub mod Rows
pub mod Tables
pub mod Codes
pub mod Serde
pub mod Tx
pub mod Schema
pub mod References
pub mod Statement
pub mod Insert
pub mod Load
pub mod Order
pub mod Claims
pub mod Reviews
pub mod Artifacts
pub mod Evaluations
pub mod Reads
pub mod Grown
pub mod Audited
pub mod Repository
