-- ===== src/Vfs.antt =====
-- The virtual file system, include/vfs.h.
mod Tests
pub mod Path
pub mod Words
pub mod Component
pub mod Rounds
pub mod Resolve
pub mod Types
pub mod Mounts
pub mod Calls
pub mod Handles
pub mod Guarded
pub mod Refused
pub mod Opened
pub mod Longest
