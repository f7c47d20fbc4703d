-- ===== src/Collector.antt =====
-- The runtime of the result aggregator in src/application/aggregation_service.rs.
pub mod Types
pub mod Records
pub mod Settles
pub mod Publication
