-- ===== src/Schedulers.antt =====
-- The schedulers beside the time queue, and how the agent uses them: scheduler/checker,
-- scheduler/keyword and cmd/monitorbeat.
pub mod Checker
pub mod Keyword
pub mod Agent
pub mod Wiring
mod Tests
