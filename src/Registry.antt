-- ===== src/Registry.antt =====
-- The registry of agents: web/registry.
pub mod Store
pub mod Handler
pub mod Served
mod Tests
