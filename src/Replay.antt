-- ===== src/Replay.antt =====
-- The replay of dead letters in src/application/dlq_replay.rs.
pub mod Records
pub mod Build
pub mod Agreement
pub mod RoundTrip
