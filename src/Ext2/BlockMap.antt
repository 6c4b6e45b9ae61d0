-- ===== src/Ext2/BlockMap.antt =====
-- Which block of the device holds the block of a file: `ext2_get_inode_block_entry` and
-- `ext2_find_block_entry`.
pub mod Laws
use fuse_ext.Base.{
  ℕ, zero, suc, ◌+◌, ◌-◌, ◌*◌, ◌/◌, ◌^◌, ◌==◌, ltb, if◌then◌else◌, List, [], ◌∷◌, get_elem?, Ptr,
  Memory, read32, Outcome, ok, fault, ◌>>=◌, deref,
}
use fuse_ext.Ext2.Layout.{inode_at}
use fuse_ext.Ext2.Geometry.{Fs, get_block, indirection_levels}

-- The block that is read is the one numbered `entry_index`; `base_block` is not used.
unfoldable pub find_block_entry : Memory → Fs → ℕ → ℕ → ℕ → Outcome ℕ
find_block_entry m self base_block zero entry_index = do
  current_block ← deref (get_block m self entry_index)
  ok (read32 m (current_block + 4 * entry_index))
find_block_entry m self base_block (suc level) entry_index =
    let elements = self.entries_per_block ^ level in
    if elements == 0 then fault else (do
      current_block ← deref (get_block m self entry_index)
      find_block_entry m self (read32 m (current_block + 4 * (entry_index / elements))) level
          (entry_index - entry_index / elements * elements))

-- The loop over the 15 slots of an inode: the slot at which it stops.
unfoldable pub base_block_loop : ℕ → List ℕ → ℕ → ℕ → ℕ → ℕ
base_block_loop entries [] blocks_offset index entry_index = index
base_block_loop entries (level ∷ levels) blocks_offset index entry_index =
    if ltb blocks_offset entry_index
    then base_block_loop entries levels (blocks_offset + entries ^ level) (index + 1) entry_index
    else index

-- Past the last slot the level is read behind the end of its array.
unfoldable pub get_inode_block_entry : Memory → Fs → Ptr → ℕ → Outcome ℕ
unfolding base_block_loop find_block_entry
get_inode_block_entry m self node entry_index =
    let i = base_block_loop self.entries_per_block indirection_levels 0 0 entry_index in
    do
      level ← deref (get_elem? indirection_levels i)
      if level == 0
          then ok ((inode_at m node).block i)
          else find_block_entry m self ((inode_at m node).block i) level entry_index
