-- ===== src/Infrastructure.antt =====
-- The adapters of crates/casegraph-infrastructure.
pub mod Sqlite
pub mod Extractors
