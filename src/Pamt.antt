-- ===== src/Pamt.antt =====
-- src/common/memory_handlers/pamt_manager.c.
pub mod State
pub mod Block
pub mod Walk
pub mod Same
pub mod Resize
pub mod Implicit
pub mod Reserved
pub mod Init
mod Examples
