-- ===== src/Aggregation.antt =====
-- The in-memory aggregator of src/application/aggregation.rs.
pub mod State
pub mod Summary
pub mod Aggregator
pub mod Coverage
pub mod Represents
pub mod Ingest
pub mod History
pub mod Quantiles
pub mod Expiry
