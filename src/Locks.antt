-- ===== src/Locks.antt =====
-- Locks.
pub mod Types
pub mod Atomic
pub mod Sharing
pub mod Mutex
pub mod Sharex
pub mod SharexHp
pub mod Sept
pub mod Alone
pub mod System
pub mod Safety
mod Examples
