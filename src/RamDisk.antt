-- ===== src/RamDisk.antt =====
-- include/ramdisk.h: the in-memory file system. One child for each group of functions, and
-- then what is proved of them.
pub mod Types
pub mod Table
pub mod Handle
pub mod Files
pub mod Dir
pub mod Find
pub mod Valid
pub mod Create
pub mod Delete
pub mod Write
pub mod Contents
pub mod Roundtrip
pub mod WriteFile
pub mod Rename
pub mod Listing
pub mod Reach
mod Tests
