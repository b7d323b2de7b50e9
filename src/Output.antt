-- ===== src/Output.antt =====
-- The outputs of the agent: internal/output.
pub mod Disk
pub mod Http
pub mod Metrics
pub mod Payload
pub mod File
mod Tests
