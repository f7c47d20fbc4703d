-- ===== src/Coordination/Execution.antt =====
-- `RedisIdempotencyStore` of src/infrastructure/redis/mod.rs: the lease of one execution attempt
-- and its terminal outcome, in one hash.
pub mod Store
pub mod Claim
pub mod Settle
pub mod Records
pub mod Exclusion
pub mod Fencing
pub mod Terminal
pub mod Completion
