-- ===== src/Hikvision.antt =====
-- The Hikvision adapter, adapters/hikvision/: master sector, HIKBTREE parser and adapter.
pub mod Structures
pub mod Hikbtree
pub mod Adapter
mod Sample
