-- ===== src/Ext2/Data/Write.antt =====
-- Writing puts the buffer into the file's blocks and leaves all else alone; a read gives it back.
pub mod Loop
pub mod Stretch
pub mod Grown
pub mod Other
use fuse_ext.Base.{
  ℕ, zero, suc, ◌+◌, ◌-◌, ◌*◌, ◌/◌, ◌%◌, ◌^◌, ◌≤◌, ◌<◌, ◌≡◌, ◌≢◌, ◌⊎◌, refl, sym, ap, ap₂, ◌∙◌,
  subst, ltb, ◌==◌, if◌then◌else◌, List, [], ◌∷◌, length, get_or, Ptr, Memory, u32, arith, Outcome,
  ok, ◌>>=◌, inl, inr, split_index, le→ltb, lt→ltb, ==_refl, true, false, read32-same, some,
}
use native.Mathlib.Nat.{add_assoc, mul-div-le, lt-div-mul-add, div-add-mod, mod-lt}
use fuse_ext.Ext2.Layout.{superblock_at, inode_at}
use fuse_ext.Ext2.Geometry.{Fs, get_block}
use fuse_ext.Ext2.Geometry.Laws.{IsSmall, get_block-some}
use fuse_ext.Ext2.Resize.{Clusters, ceil_div, resize_inode_data}
use fuse_ext.Ext2.Data.{
  data_block, first_size, write_loop, make_room, write_inode_data, read_inode_data,
}
use fuse_ext.Ext2.Data.Content.{content, contents, contents-eq}
use fuse_ext.Ext2.Data.Read.{
  IsRound, IsMapped, IsDirect, direct_block, direct-IsMapped, read_inode_data-contents,
}
use fuse_ext.Ext2.Data.Same.{same_size, same-IsMapped}
use Loop.{IsElsewhere, IsWritten, write_loop-IsWritten}
use Stretch.{IsWritable, distinct, elsewhere-IsSame}

module _ (clusters : Clusters) (m : Memory) (self : Fs) (inode : Ptr) (buff : List ℕ) (offset : ℕ)
    (some_bytes : 0 < length buff) {m' : Memory}
    (room : make_room clusters m self inode (offset + length buff) ≡ ok m')
    (writable : IsWritable m' self inode offset (offset + length buff)) where
  -- The write, once there is room for it.
  pub write_in_place :
      (after : Memory) × (write_inode_data clusters m self inode buff offset ≡ ok after)
      × IsWritten self.block_size
          (direct_block m' self inode)
          buff
          offset
          offset
          (offset + length buff)
          m'
          after
  unfolding write_inode_data
  write_in_place =
      let bs = self.block_size in
      let end = offset + length buff in
      let pos = writable.pos in
      let b = offset / bs in
      let o = offset - offset / bs * bs in
      let ne : (bs == 0) ≡ false = ground arith in
      let below : b * bs ≤ offset = omega (arith, mul-div-le offset bs) in
      let above : offset < b * bs + bs = lt-div-mul-add pos in
      let mapped =
        λ (other : Memory)
            (same : (a : Ptr)
              → IsElsewhere bs (direct_block m' self inode) offset end a
              → other a ≡ m' a).
          same-IsMapped (elsewhere-IsSame m' self inode offset end writable other same) offset end
            writable.direct in
      let found = mapped m' (λ a out. refl) b above (omega arith) in
      let start : IsRound bs offset (length buff) 0 b o (first_size self o (length buff)) =
        ground arith in
      let (after, run, written) =
        write_loop-IsWritten m' self inode (direct_block m' self inode) buff offset pos
          (λ k l _ hk _ hl. distinct m' self inode offset end writable k l hk hl)
          (λ other b same. mapped other same b) (length buff + 1) m' b 0 o
          (first_size self o (length buff)) start (omega arith) (λ a out. refl) in
      let first : offset + 0 ≡ offset = omega arith in
      (
        after,
        rw (ne, room) (rw found run),
        subst (λ t. IsWritten bs (direct_block m' self inode) buff offset t end m' after) first
            written,
      )

module _ (clusters : Clusters) (m : Memory) (self : Fs) (inode : Ptr) (buff : List ℕ) (offset : ℕ)
    (writable : IsWritable m self inode offset (offset + length buff))
    (some_bytes : 0 < length buff) where
  enough_room :
      offset + length buff ≤ (inode_at m inode).size
      → make_room clusters m self inode (offset + length buff) ≡ ok m
  unfolding make_room
  enough_room long = rw (le→ltb _ _ long)

  -- With a block size that is not 0, a write of at least one byte, inside a file's size, when all
  -- blocks of the file up to the end of the stretch are direct ones, each with a number that is
  -- below 2^16 and that the superblock counts, and with an offset, number times block size, below
  -- 2^32, no two of these have the same number, and no byte of the stretch lies in the superblock
  -- or the inode: it ends, puts byte i of the buffer at byte offset + i of the file, and changes no
  -- other address of the device.
  pub write_inode_data-IsWritten :
      offset + length buff ≤ (inode_at m inode).size
      → (after : Memory) × (write_inode_data clusters m self inode buff offset ≡ ok after)
        × IsWritten self.block_size
            (direct_block m self inode)
            buff
            offset
            offset
            (offset + length buff)
            m
            after
  write_inode_data-IsWritten long =
      write_in_place clusters m self inode buff offset some_bytes (enough_room long) writable

  -- Reading the stretch after a write of at least one byte, inside a file's size, where the stretch
  -- is writable as in `IsWritable`, gives the buffer back; the size of the file is the same.
  pub read_inode_data-write_inode_data :
      offset + length buff ≤ (inode_at m inode).size
      → (after : Memory) × (write_inode_data clusters m self inode buff offset ≡ ok after)
        × (read_inode_data after self inode offset (length buff) ≡ ok buff)
        × ((inode_at after inode).size ≡ (inode_at m inode).size)
  read_inode_data-write_inode_data long =
      let (after, run, written) = write_inode_data-IsWritten long in
      let end = offset + length buff in
      let addr = direct_block m self inode in
      let same = elsewhere-IsSame m self inode offset end writable after written.elsewhere in
      let mapped = same-IsMapped same offset end writable.direct in
      (
        after,
        run,
        read_inode_data-contents after self inode addr offset (length buff) writable.pos mapped
              some_bytes
            ∙ ap ok (
                contents-eq after self.block_size addr buff offset λ i h.
                  let e : offset + i - offset ≡ i = omega arith in
                  written.inside (offset + i) (omega arith) (omega arith)
                  ∙ ap (λ (t : ℕ). get_or buff t 0) e),
        same_size same,
      )

  -- A write of at least one byte past the end of the file that needs as many clusters as the file
  -- has, where the stretch is writable as in `IsWritable`, puts its bytes into the blocks, but the
  -- inode keeps the old size, which the write has overrun.
  pub write_inode_data-old_size :
      (inode_at m inode).size < offset + length buff
      → ceil_div (offset + length buff) self.block_size
        ≡ ceil_div (inode_at m inode).size self.block_size
      → (after : Memory) × (write_inode_data clusters m self inode buff offset ≡ ok after)
        × IsWritten self.block_size
            (direct_block m self inode)
            buff
            offset
            offset
            (offset + length buff)
            m
            after
        × ((inode_at after inode).size ≡ (inode_at m inode).size)
        × ((inode_at after inode).size < offset + length buff)
  unfolding make_room resize_inode_data
  write_inode_data-old_size short same =
      let pos = writable.pos in
      let ne : (self.block_size == 0) ≡ false = ground arith in
      let room : make_room clusters m self inode (offset + length buff) ≡ ok m =
        rw (lt→ltb _ _ short, ne, same, ==_refl) in
      let (after, run, written) =
        write_in_place clusters m self inode buff offset some_bytes room writable in
      let kept = same_size (
        elsewhere-IsSame m self inode offset (offset + length buff) writable after
          written.elsewhere) in
      (after, run, written, kept, rw kept short)
