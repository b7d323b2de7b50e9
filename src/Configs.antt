-- ===== src/Configs.antt =====
-- The configuration of the agent: configs/.
pub mod Param
pub mod Tasks
pub mod Root
pub mod HttpOutput
mod Tests
