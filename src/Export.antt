-- ===== src/Export.antt =====
-- internal/export: writing the cache to a file.
pub mod Space
pub mod JsonSafe
pub mod Options
pub mod Disk
pub mod Write
