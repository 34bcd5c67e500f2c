-- ===== src/Fat12.antt =====
-- The FAT12 driver, include/fat12.h and include/fat12_write.h.
mod Tests
pub mod Types
pub mod Table
pub mod Names
pub mod Params
pub mod Format
pub mod Mount
pub mod Lost
pub mod Dir
pub mod File
pub mod Entry
pub mod Write
pub mod Change
pub mod NewEntry
pub mod Seek
pub mod Walk
pub mod Space
pub mod Packed
pub mod Cached
pub mod Alloc
pub mod Chain
pub mod Extend
pub mod Free
