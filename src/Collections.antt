-- ===== src/Collections.antt =====
-- fuse_ext2_commons/src/collections.
pub mod View
pub mod Linked
