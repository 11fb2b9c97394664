-- ===== src/Jobs.antt =====
-- The background jobs, vfront/frontend/service/jobs.
pub mod Namespace
pub mod OnStore
pub mod Lease
pub mod Executions
pub mod World
pub mod Runner
pub mod Tasks
