-- ===== src/Dashboard.antt =====
-- The read-only part of the console: the client of VictoriaMetrics in web/vm, and the handlers of
-- web/api/server.go.
pub mod Vm
pub mod Promql
pub mod Replies
pub mod Handlers
pub mod Routes
mod Tests
