-- ===== src/Collectors.antt =====
-- include/sysscope/collectors and src/collectors: one collector for each kernel interface.
pub mod Cpu
pub mod Memory
pub mod Disk
pub mod Network
pub mod Psi
pub mod Thermal
pub mod Process
