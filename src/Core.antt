-- ===== src/Core.antt =====
-- include/sysscope/core: the vocabulary of the telemetry.
pub mod Types
pub mod Result
pub mod Snapshot
pub mod Timestamp
