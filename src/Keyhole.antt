-- ===== src/Keyhole.antt =====
-- src/common/memory_handlers/keyhole_manager.c.
pub mod State
pub mod Lru
pub mod Hash
pub mod Manager
pub mod Address
pub mod Exhausted
mod Examples
