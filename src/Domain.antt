-- ===== src/Domain.antt =====
-- The messages between the nodes and what makes them well formed: src/domain/contracts.rs and
-- src/domain/error.rs.
pub mod Error
pub mod Rate
pub mod Contracts
pub mod Checks
pub mod Job
pub mod RunResult
pub mod Scenario
