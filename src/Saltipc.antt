-- ===== src/Saltipc.antt =====
-- internal/saltipc: the bus.
pub mod Frame
pub mod Value
pub mod Codec
pub mod Reader
