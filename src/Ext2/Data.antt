-- ===== src/Ext2/Data.antt =====
-- `ext2_read_inode_data` and `ext2_write_inode_data`.
pub mod Bytes
pub mod Content
pub mod Read
pub mod Same
pub mod Store
pub mod Write
use fuse_ext.Base.{
  ℕ, zero, suc, ◌+◌, ◌-◌, ◌*◌, ◌/◌, ◌==◌, ltb, leb, if◌then◌else◌, List, [], ◌++◌, length, take,
  drop, u32, Ptr, Memory, bytes_at, copy_in, Outcome, ok, fault, out_of_fuel, ◌>>=◌, deref,
}
use fuse_ext.Ext2.Layout.{inode_at}
use fuse_ext.Ext2.Geometry.{Fs, get_block}
use fuse_ext.Ext2.BlockMap.{get_inode_block_entry}
use fuse_ext.Ext2.Resize.{Clusters, resize_inode_data}

-- The address of the `index`-th block of a file; NULL is a fault here, before the bytes are copied.
-- The entry index is a uint32_t.
unfoldable pub data_block : Memory → Fs → Ptr → ℕ → Outcome Ptr
data_block m self inode index = do
  block_to_copy ← get_inode_block_entry m self inode (u32 index)
  deref (get_block m self block_to_copy)

-- How much of the next block is copied.
abbrev pub next_size : Fs → ℕ → ℕ → ℕ
next_size self size_copied size =
    if leb (size_copied + self.block_size) size then self.block_size else size - size_copied

-- How much of the first block is copied.
abbrev pub first_size : Fs → ℕ → ℕ → ℕ
first_size self offset_inside_block size =
    if ltb size (self.block_size - offset_inside_block)
    then size
    else self.block_size - offset_inside_block

-- The `do … while`: a round copies `n` bytes from `source` to the end of what is copied so far.
unfoldable pub read_loop : Memory → Fs → Ptr → ℕ → ℕ → ℕ → ℕ → Ptr → ℕ → List ℕ → Outcome (List ℕ)
read_loop m self inode size zero blocks_offset size_copied source n buff = out_of_fuel
read_loop m self inode size (suc fuel) blocks_offset size_copied source n buff =
    if ltb (size_copied + n) size
    then (do
      next ← data_block m self inode (blocks_offset + 1)
      read_loop m self inode size fuel (blocks_offset + 1) (size_copied + n) next
          (next_size self (size_copied + n) size) (buff ++ bytes_at m source n))
    else ok (buff ++ bytes_at m source n)

-- The result is what `buff` holds at the end.
unfoldable pub read_inode_data : Memory → Fs → Ptr → ℕ → ℕ → Outcome (List ℕ)
unfolding data_block read_loop
read_inode_data m self inode offset size =
    if self.block_size == 0
    then fault
    else (let blocks_offset = offset / self.block_size in
        let offset_inside_block = offset - blocks_offset * self.block_size in
        do
          first ← data_block m self inode blocks_offset
          read_loop m self inode size (size + 1) blocks_offset 0 (first + offset_inside_block)
              (first_size self offset_inside_block size) [])

-- The same loop into the device; `buff` is the whole buffer, `size_to_copy` its length.
unfoldable pub write_loop : Fs → Ptr → List ℕ → ℕ → Memory → ℕ → ℕ → Ptr → ℕ → Outcome Memory
write_loop self inode buff zero m blocks_offset size_copied target n = out_of_fuel
write_loop self inode buff (suc fuel) m blocks_offset size_copied target n =
    let m' = copy_in m target (take n (drop size_copied buff)) in
    if ltb (size_copied + n) (length buff)
    then (do
      next ← data_block m' self inode (blocks_offset + 1)
      write_loop self inode buff fuel m' (blocks_offset + 1) (size_copied + n) next
          (next_size self (size_copied + n) (length buff)))
    else ok m'

-- The result is the memory after the write. The file is resized first when it is too short.
module _ (clusters : Clusters) where
  unfoldable pub make_room : Memory → Fs → Ptr → ℕ → Outcome Memory
  make_room m self inode end =
      if ltb (inode_at m inode).size end then resize_inode_data clusters m self inode end else ok m

  unfoldable pub write_inode_data : Memory → Fs → Ptr → List ℕ → ℕ → Outcome Memory
  unfolding data_block write_loop make_room
  write_inode_data m self inode buff offset =
      if self.block_size == 0
      then fault
      else (let blocks_offset = offset / self.block_size in
          let offset_inside_block = offset - blocks_offset * self.block_size in
          do
            m' ← make_room m self inode (offset + length buff)
            first ← data_block m' self inode blocks_offset
            write_loop self inode buff (length buff + 1) m' blocks_offset 0
                (first + offset_inside_block) (first_size self offset_inside_block (length buff)))
