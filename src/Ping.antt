-- ===== src/Ping.antt =====
-- The ping task: tasks/ping.
pub mod Echo
pub mod Result
pub mod Icmp
pub mod Command
mod Tests
