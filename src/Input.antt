-- ===== src/Input.antt =====
-- Reading log files: internal/input/file.
pub mod Decimal
pub mod Offsets
pub mod Harvester
mod Tests
