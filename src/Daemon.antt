-- ===== src/Daemon.antt =====
-- The periodic scheduler of the agent (scheduler/daemon).
pub mod Collections
pub mod Job
pub mod Queue
pub mod Scheduler
pub mod Instances
mod Tests
