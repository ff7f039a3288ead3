-- ===== src/Application.antt =====
-- The application layer of crates/casegraph-application: services over the ports of the adapters.
pub mod Error
pub mod Monad
pub mod Ports
pub mod Service
pub mod Claims
pub mod Corrections
pub mod Bundles
pub mod Codec
pub mod Rules
pub mod Evaluation
pub mod Query
pub mod Pipeline
pub mod Reasoning
