-- ===== src/Telemetry.antt =====
-- include/sysscope/telemetry: the queue between threads and the sampling scheduler.
pub mod Queue
pub mod Scheduler
