-- ===== src/Ext2/Groups.antt =====
-- `ext2_get_block_group`, and the inodes in the tables of the groups.
pub mod Laws
pub mod Same
use fuse_ext.Base.{
  ℕ, ◌+◌, ◌*◌, ◌/◌, ◌%◌, Bool, true, false, ◌==◌, leb, if◌then◌else◌, Option, none, some, u16, u32,
  sub_u32, Ptr, Memory, Outcome, ok, fault, ◌>>=◌, deref,
}
use fuse_ext.Bitarray.{Bitarray, bitarray_create}
use fuse_ext.Ext2.Layout.{superblock_at, descriptor_at, sizeof_inode}
use fuse_ext.Ext2.Geometry.{Fs, get_block, has_superblock}

-- t_ext2_block_group. A bit array over a NULL pointer is `none`.
pub record BlockGroup : Type 0 where
  pub number : ℕ
  pub first_block : ℕ
  pub has_superblock : Bool
  pub superblock : Option Ptr
  pub block_group_descriptor : Option Ptr
  pub block_bitmap : Option Bitarray
  pub inode_bitmap : Option Bitarray
  pub inodes_table : Option Ptr

abbrev pub over : ℕ → Option Ptr → Option Bitarray
over size none = none
over size (some p) = some (bitarray_create p size)

abbrev pub block_group_create : ℕ → ℕ → Bool → Option Ptr → Option Ptr → ℕ → BlockGroup
block_group_create group_number first_block has_superblock block_bitmap inode_bitmap block_size =
    record {
      number = group_number;
      first_block = first_block;
      has_superblock = has_superblock;
      superblock = none;
      block_group_descriptor = none;
      block_bitmap = over block_size block_bitmap;
      inode_bitmap = over block_size inode_bitmap;
      inodes_table = none;
    }

-- The three tables of a group and the block behind its header, when the group starts with a
-- superblock.
unfoldable pub group_with_superblock : Memory → Fs → ℕ → ℕ → Outcome (Option BlockGroup)
group_with_superblock m self number first_block = do
  d ← deref (get_block m self (u32 (first_block + 1)))
  let block_bitmap = get_block m self (descriptor_at m d).block_bitmap
  let inode_bitmap = get_block m self (descriptor_at m d).inode_bitmap
  let block_group =
      block_group_create number (u32 (u32 (first_block + 1) + 1)) true block_bitmap inode_bitmap
        self.block_size
  ok (
      some (record block_group {
        superblock = get_block m self first_block;
        block_group_descriptor = some d;
        inodes_table = get_block m self (descriptor_at m d).inode_table;
      }))

unfoldable pub group_without_superblock : Memory → Fs → ℕ → ℕ → Outcome (Option BlockGroup)
group_without_superblock m self number first_block =
    let block_bitmap = get_block m self first_block in
    let inode_bitmap = get_block m self (u32 (first_block + 1)) in
    let block_group =
      block_group_create number (u32 (u32 (u32 (first_block + 1) + 1) + 1)) false block_bitmap
        inode_bitmap self.block_size in
    ok (
      some
        (record block_group { inodes_table = get_block m self (u32 (u32 (first_block + 1) + 1)) }))

-- `ok none` is NULL; a fault is the read through a NULL descriptor.
unfoldable pub get_block_group : Memory → Fs → ℕ → Outcome (Option BlockGroup)
unfolding group_with_superblock group_without_superblock
get_block_group m self group_number =
    let g = u16 group_number in
    let s = superblock_at m self.superblock in
    let first_block = u32 (u32 (g * s.blockper_group) + s.first_data_block) in
    if leb self.number_of_block_groups g
    then ok none
    else (if has_superblock g
        then group_with_superblock m self g first_block
        else group_without_superblock m self g first_block)

-- `&block_group->inodes_table[index]`. An address in a NULL table is a fault here, where it is taken,
-- and not at its first use.
unfoldable pub inode_in_group : Memory → Fs → ℕ → ℕ → Outcome Ptr
inode_in_group m self group index = do
  found ← get_block_group m self group
  block_group ← deref found
  table ← deref block_group.inodes_table
  ok (table + sizeof_inode * index)

-- EXT2_ROOT_INODE_INDEX
abbrev pub root_inode_index : ℕ
root_inode_index = 1

unfoldable pub get_root_inode : Memory → Fs → Outcome Ptr
unfolding inode_in_group
get_root_inode m self = inode_in_group m self 0 root_inode_index

-- A group of no inodes is a division by zero.
unfoldable pub get_inode : Memory → Fs → ℕ → Outcome Ptr
unfolding inode_in_group
get_inode m self inode_index =
    let n = sub_u32 inode_index 1 in
    let per_group = (superblock_at m self.superblock).inodeper_group in
    if per_group == 0 then fault else inode_in_group m self (u16 (n / per_group)) (n % per_group)
