-- ===== src/Worker.antt =====
-- The worker of src/application/service.rs: from a record of the job topic to its committed offset.
pub mod Types
pub mod Ports
pub mod Publish
pub mod Reports
pub mod Execute
pub mod Refusal
pub mod Process
pub mod Loop
pub mod Log
pub mod Rules
pub mod Retries
pub mod Settlement
pub mod Terminal
pub mod Until
pub mod Works
pub mod Safety
