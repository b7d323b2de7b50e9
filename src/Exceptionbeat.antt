-- ===== src/Exceptionbeat.antt =====
-- The task that looks for exceptions of a host: tasks/exceptionbeat/exceptionbeat.go.
pub mod Strings
pub mod Oom
pub mod Corefile
pub mod DiskRo
pub mod DiskSpace
pub mod Gather
mod Tests
