-- ===== src/Ext2.antt =====
-- fuse_ext2_commons/src/ext2.c and ext2.h: the file system in a mapped device.
pub mod Layout
pub mod Geometry
pub mod Groups
pub mod BlockMap
pub mod Directory
pub mod Resize
pub mod Data
pub mod FreeBlocks
