-- ===== src/Analytics.antt =====
-- include/sysscope/analytics: what is concluded from the samples.
pub mod Correlation
pub mod Profiler
