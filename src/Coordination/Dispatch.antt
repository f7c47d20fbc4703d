-- ===== src/Coordination/Dispatch.antt =====
-- `RedisDueStateStore` of src/infrastructure/redis/mod.rs: the dispatch of a scenario's windows.
pub mod Store
pub mod Prepare
pub mod Ack
pub mod Slices
pub mod Windows
pub mod Settled
pub mod Delivery
pub mod Progress
pub mod Authority
pub mod Schedule
