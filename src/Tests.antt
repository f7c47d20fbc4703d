-- ===== src/Tests.antt =====
-- Concrete inputs, on which the theorems are applied.
mod Server
mod Leases
mod Leadership
mod Windows
mod Runs
mod Jobs
mod Workers
mod Schedulers
mod Collectors
mod Replays
mod Elections
