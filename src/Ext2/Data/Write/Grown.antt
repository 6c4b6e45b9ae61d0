-- ===== src/Ext2/Data/Write/Grown.antt =====
-- A write that makes its file larger.
use fuse_ext.Base.{
  ℕ, ◌+◌, ◌-◌, ◌^◌, ◌<◌, ◌≡◌, ap, ◌∙◌, lt→ltb, false, ◌==◌, List, length, get_or, u32, Ptr, Memory,
  arith, ok,
}
use fuse_ext.Ext2.Layout.{inode_at}
use fuse_ext.Ext2.Geometry.{Fs}
use fuse_ext.Ext2.Resize.{Clusters, write32, ceil_div, resize_inode_data}
use fuse_ext.Ext2.Resize.Laws.{read32-write32}
use fuse_ext.Ext2.Data.{make_room, write_inode_data, read_inode_data}
use fuse_ext.Ext2.Data.Content.{contents-eq}
use fuse_ext.Ext2.Data.Read.{direct_block, read_inode_data-contents}
use fuse_ext.Ext2.Data.Same.{same_size, same-IsMapped}
use fuse_ext.Ext2.Data.Write.{write_in_place}
use fuse_ext.Ext2.Data.Write.Loop.{IsWritten}
use fuse_ext.Ext2.Data.Write.Stretch.{IsWritable, elsewhere-IsSame}

-- The device with the clusters added and the new size in the inode.
abbrev pub grown : Memory → Ptr → ℕ → Memory
grown added inode end = write32 added (inode + 4) (u32 end)

module _ (clusters : Clusters) (m : Memory) (self : Fs) (inode : Ptr) (buff : List ℕ) (offset : ℕ)
    {added : Memory} (some_bytes : 0 < length buff) (fits : offset + length buff < 2 ^ 32)
    (short : (inode_at m inode).size < offset + length buff)
    (more : ceil_div (inode_at m inode).size self.block_size
      < ceil_div (offset + length buff) self.block_size)
    (adds : clusters.add_clusters m self inode (
        ceil_div (offset + length buff) self.block_size
        - ceil_div (inode_at m inode).size self.block_size)
      ≡ ok added)
    (writable : IsWritable
      (grown added inode (offset + length buff))
      self
      inode
      offset
      (offset + length buff)) where
  room :
      make_room clusters m self inode (offset + length buff)
      ≡ ok (grown added inode (offset + length buff))
  unfolding make_room resize_inode_data
  room =
      let ne : (self.block_size == 0) ≡ false = let pos = writable.pos in ground arith in
      let differs : (ceil_div (offset + length buff) self.block_size
            == ceil_div (inode_at m inode).size self.block_size)
          ≡ false =
        ground arith in
      rw (lt→ltb _ _ short, ne, differs, lt→ltb _ _ more) (rw adds)

  -- A write of at least one byte past the end of a file and into new clusters, with an end that
  -- fits 32 bits and a block size that is not 0, when the clusters are added and then all blocks of
  -- the file up to the end of the stretch are direct ones, each with a number that is below 2^16
  -- and that the superblock counts, and with an offset, number times block size, below 2^32, no two
  -- of these have the same number, and no byte of the stretch lies in the superblock or the inode:
  -- it ends with the new size in the inode, puts the buffer at its place, changes nothing else of
  -- the device with the clusters added, and a read of the stretch gives the buffer back.
  pub write_inode_data-grown :
      (after : Memory) × (write_inode_data clusters m self inode buff offset ≡ ok after)
      × ((inode_at after inode).size ≡ offset + length buff)
      × IsWritten self.block_size
          (direct_block (grown added inode (offset + length buff)) self inode)
          buff
          offset
          offset
          (offset + length buff)
          (grown added inode (offset + length buff))
          after
      × (read_inode_data after self inode offset (length buff) ≡ ok buff)
  write_inode_data-grown =
      let end = offset + length buff in
      let m' = grown added inode end in
      let (after, run, written) =
        write_in_place clusters m self inode buff offset some_bytes room writable in
      let same = elsewhere-IsSame m' self inode offset end writable after written.elsewhere in
      let cut : u32 end ≡ end = omega arith in
      let set : (inode_at m' inode).size ≡ end =
        rw cut (read32-write32 added (inode + 4) end fits) in
      let addr = direct_block m' self inode in
      (
        after,
        run,
        same_size same ∙ set,
        written,
        read_inode_data-contents after self inode addr offset (length buff) writable.pos
              (same-IsMapped same offset end writable.direct) some_bytes
            ∙ ap ok (
                contents-eq after self.block_size addr buff offset λ i h.
                  let e : offset + i - offset ≡ i = omega arith in
                  written.inside (offset + i) (omega arith) (omega arith)
                  ∙ ap (λ (t : ℕ). get_or buff t 0) e),
      )
