-- ===== src/Strings.antt =====
-- fuse_ext2_commons/src/string.c and strings.h. A C string is the list of its characters, from
-- the first to the one before the terminating NUL.
pub mod Split
pub mod Text
