-- ===== src/Tests.antt =====
-- Runs of the development at concrete inputs.
pub mod Fixtures
pub mod Requests
pub mod Calendar
pub mod Records
pub mod Services
pub mod Database
pub mod Storage
pub mod Evaluations
pub mod Extraction
pub mod Queries
pub mod Gateway
