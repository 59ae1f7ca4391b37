-- ===== src/Sept.antt =====
-- src/common/memory_handlers/sept_manager.c.
pub mod Entry
pub mod Flags
pub mod State
pub mod L2
pub mod Block
pub mod Arch
pub mod ArchL2
mod Examples
