-- ===== src/Coordination.antt =====
-- Leadership, execution leases and dispatch windows on Redis: src/domain/coordination.rs and
-- src/infrastructure/redis/mod.rs.
pub mod Types
pub mod Redis
pub mod Client
pub mod Execution
pub mod Leader
pub mod Dispatch
