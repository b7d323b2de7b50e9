-- ===== src/Alerts.antt =====
-- The alerting service of the web process (web/alerts).
pub mod Labels
pub mod Time
pub mod Models
pub mod Monad
pub mod Store
pub mod Evaluator
pub mod Api
mod Tests
