-- ===== src/Ui.antt =====
-- include/sysscope/ui: the terminal dashboard and the Qt client.
pub mod Terminal
pub mod Screens
pub mod Dashboard
pub mod Qt
