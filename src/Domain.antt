-- ===== src/Domain.antt =====
-- The canonical domain types of crates/casegraph-domain, with their validated constructors.
pub mod Error
pub mod Id
pub mod Temporal
pub mod Value
pub mod Confidence
pub mod Model
