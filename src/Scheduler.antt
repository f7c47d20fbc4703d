-- ===== src/Scheduler.antt =====
-- The scheduler of src/application/service.rs: it publishes the missing slices of the windows that
-- are due and acknowledges them in the dispatch store.
pub mod Ports
pub mod Dispatch
pub mod Follows
pub mod Loop
pub mod Election
pub mod Announced
