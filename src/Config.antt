-- ===== src/Config.antt =====
-- internal/config: where things live and how settings compose.
pub mod Paths
pub mod Settings
pub mod Load
