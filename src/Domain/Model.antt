-- ===== src/Domain/Model.antt =====
-- The canonical records of crates/casegraph-domain/src/model.rs. `u32` and `u64` values are numbers.
pub mod Evidence
pub mod Workflow
pub mod Validate
pub mod Texts
pub mod Accepts
