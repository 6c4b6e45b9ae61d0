-- ===== src/Ext2/Geometry.antt =====
-- `ext2_create`, what it computes from the superblock, and `ext2_get_block`.
pub mod Laws
pub mod Mount
use fuse_ext.Base.{
  ℕ, zero, suc, ◌+◌, ◌*◌, ◌/◌, ◌%◌, ◌^◌, Bool, true, false, ◌||◌, ◌==◌, leb, if◌then◌else◌, Option,
  none, some, List, [], ◌∷◌, u16, u32, sub_u32, Ptr, Memory, Outcome, ok, fault, ◌>>=◌,
}
use fuse_ext.Ext2.Layout.{superblock_at}

-- EXT2_INODES_INDIRECTION_LEVEL
abbrev pub indirection_levels : List ℕ
indirection_levels = 0 ∷ 0 ∷ 0 ∷ 0 ∷ 0 ∷ 0 ∷ 0 ∷ 0 ∷ 0 ∷ 0 ∷ 0 ∷ 0 ∷ 1 ∷ 2 ∷ 3 ∷ []

abbrev pub ext2_super_magic : ℕ
ext2_super_magic = 0xEF53

-- t_ext2
pub record Fs : Type 0 where
  pub device : Ptr
  pub superblock : Ptr
  pub block_size : ℕ
  pub inode_blocks_amount : ℕ
  pub entries_per_block : ℕ
  pub number_of_block_groups : ℕ

-- `1024 << log_block_size` in 32 bits.
unfoldable pub get_block_size : Memory → Ptr → ℕ
get_block_size m superblock = u32 (1024 * 2 ^ (superblock_at m superblock).log_block_size)

unfoldable pub inode_blocks_loop : ℕ → List ℕ → ℕ → ℕ
inode_blocks_loop entries [] blocks = blocks
inode_blocks_loop entries (level ∷ levels) blocks =
    inode_blocks_loop entries levels (u32 (blocks + entries ^ level))

unfoldable pub get_inode_blocks_amount : ℕ → ℕ
unfolding inode_blocks_loop
get_inode_blocks_amount entries = inode_blocks_loop entries indirection_levels 0

-- The quotient of the two doubles, rounded down; a group of no blocks makes it infinite, which no
-- uint16_t holds.
unfoldable pub get_number_of_block_group : Memory → Ptr → Outcome ℕ
get_number_of_block_group m superblock =
    let s = superblock_at m superblock in
    if s.blockper_group == 0
    then fault
    else ok (u16 (sub_u32 s.blockcount s.first_data_block / s.blockper_group))

-- `none` is the exit with "Not ext2 partition".
unfoldable pub create : Memory → Ptr → Outcome (Option Fs)
unfolding get_block_size get_inode_blocks_amount get_number_of_block_group
create m device =
    let sb = device + 1024 in
    if (superblock_at m sb).magic == ext2_super_magic
    then (do
      groups ← get_number_of_block_group m sb
      ok (
          some (record {
            device = device;
            superblock = sb;
            block_size = get_block_size m sb;
            inode_blocks_amount = get_inode_blocks_amount (get_block_size m sb / 4);
            entries_per_block = get_block_size m sb / 4;
            number_of_block_groups = groups;
          })))
    else ok none

-- The parameter is a uint16_t: the number that a caller passes is cut to 16 bits. The product is
-- one of 32 bits. `none` is NULL.
unfoldable pub get_block : Memory → Fs → ℕ → Option Ptr
get_block m self block_number =
    let n = u16 block_number in
    if leb (superblock_at m self.superblock).blockcount n
    then none
    else some (self.device + u32 (n * self.block_size))

unfoldable pub has_superblock : ℕ → Bool
has_superblock group_number =
    if (group_number == 0) || (group_number == 1)
    then true
    else (if (group_number % 3 == 0) || (group_number % 5 == 0) || (group_number % 7 == 0)
        then true
        else false)
