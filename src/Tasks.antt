-- ===== src/Tasks.antt =====
-- The tasks of the agent in tasks/, less those with a module of their own.
pub mod Event
pub mod Basereport
pub mod Dmesg
pub mod Factory
pub mod Heartbeat
pub mod Keyword
pub mod Reports
mod Tests
pub mod Probe
