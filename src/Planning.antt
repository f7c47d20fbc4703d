-- ===== src/Planning.antt =====
-- The pure planning of src/application/service.rs: slices, loads, fingerprints and delays.
pub mod Slices
pub mod Shares
pub mod Text
pub mod Delays
pub mod Reasons
