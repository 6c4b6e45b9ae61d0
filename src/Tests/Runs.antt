-- ===== src/Tests/Runs.antt =====
-- The definitions run on the device.
use fuse_ext.Base.{ℕ, List, ◌≡◌, refl, some, [], ◌∷◌, ok}
use fuse_ext.Ext2.Layout.{has_mode_flag}
use fuse_ext.Ext2.Geometry.{create, get_block, has_superblock}
use fuse_ext.Ext2.Groups.{get_root_inode, get_inode, get_block_group}
use fuse_ext.Ext2.Directory.{get_element_inode, list_inode, find_inode, find_child, list_dir}
use fuse_ext.Ext2.Data.{read_inode_data, write_inode_data}
use fuse_ext.Rpc.{read_dir, entries}
use fuse_ext.Server.{serve, serve_all}
use fuse_ext.Ext2.BlockMap.{get_inode_block_entry}
use fuse_ext.Tests.Disk.{disk, fs, hello, buff, root_inode, hello_inode, no_clusters, after_write}

mounts : create disk 0 ≡ ok (some fs)
unfolding create
mounts = refl

pub root_found : get_root_inode disk fs ≡ ok root_inode
unfolding get_root_inode get_block_group get_block has_superblock
root_found = refl

pub hello_found : get_element_inode disk fs hello ≡ ok (some hello_inode)
unfolding get_element_inode get_root_inode get_block_group has_superblock get_block list_inode
    has_mode_flag get_inode_block_entry get_inode
hello_found = refl

across_blocks : read_inode_data disk fs hello_inode 1021 5 ≡ ok (0 ∷ 97 ∷ 98 ∷ 99 ∷ 100 ∷ [])
unfolding read_inode_data get_inode_block_entry get_block
across_blocks = refl

abbrev hello_name : List ℕ
hello_name = b'h' ∷ b'e' ∷ b'l' ∷ b'l' ∷ b'o' ∷ []

pub hello_below_root : find_inode disk fs root_inode (hello_name ∷ []) ≡ ok (some hello_inode)
unfolding find_inode find_child list_inode has_mode_flag get_inode_block_entry get_inode
    get_block_group has_superblock get_block
hello_below_root = refl

pub listing_run :
    serve_all no_clusters disk fs (read_dir (b'/' ∷ []) ∷ [])
    ≡ ok (disk, entries (hello_name ∷ []) ∷ [])
unfolding serve_all serve list_dir get_element_inode get_root_inode get_block_group has_superblock
    get_block list_inode has_mode_flag get_inode_block_entry get_inode
listing_run = refl

pub written_run : write_inode_data no_clusters disk fs hello_inode buff 1022 ≡ ok after_write
unfolding write_inode_data get_inode_block_entry get_block
written_run = refl

pub written_found : get_element_inode after_write fs hello ≡ ok (some hello_inode)
unfolding get_element_inode get_root_inode get_block_group has_superblock get_block list_inode
    has_mode_flag get_inode_block_entry get_inode
written_found = refl
