-- ===== src/Platform.antt =====
-- include/sysscope/platform: where the collectors read from.
pub mod Host
pub mod Files
pub mod RealFiles
pub mod Devices
pub mod Netlink
