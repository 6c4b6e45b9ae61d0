-- ===== src/Ext2/Data/Store/Run.antt =====
-- Many writes on a store, and a read.
use fuse_ext.Base.{
  ℕ, zero, suc, ◌+◌, ◌≤◌, ◌<◌, ◌≡◌, refl, ap, ap₂, ◌∙◌, List, [], ◌∷◌, Ptr, Memory, arith, ok,
}
use fuse_ext.Ext2.Layout.{inode_at}
use fuse_ext.Ext2.Geometry.{Fs}
use fuse_ext.Ext2.Resize.{Clusters}
use fuse_ext.Ext2.Data.{read_inode_data}
use fuse_ext.Ext2.Data.Content.{contents}
use fuse_ext.Ext2.Data.Read.{direct_block, read_inode_data-direct}
use fuse_ext.Ext2.Data.Store.{
  IsLayout, Store, held, stored, Write, put, put_all, AreInside, write_all,
}
use fuse_ext.Ext2.Data.Store.Step.{Holds, write-Holds}

module _ (m : Memory) (self : Fs) (F : Ptr → Type 0) (p : Ptr) (f : F p) (store : Store)
    (holds : Holds m self F store) where
  pub contents-stored :
      (k n : ℕ)
      → k + n ≤ (inode_at m p).size
      → contents m self.block_size (direct_block m self p) k n ≡ stored store p k n
  contents-stored k zero inside = refl
  contents-stored k (suc n) inside =
      ap₂ ◌∷◌ (holds p k f (omega arith)) (contents-stored (k + 1) n (omega arith))

pub AreInside-kept :
    (m after : Memory) (F : Ptr → Type 0) (ws : List Write)
    → ((p : Ptr) → F p → (inode_at after p).size ≡ (inode_at m p).size)
    → AreInside m F ws
    → AreInside after F ws
AreInside-kept m after F [] sizes valid = tt
AreInside-kept m after F (w ∷ ws) sizes valid =
    let ((f, some_bytes, inside), others) = valid in
    ((f, some_bytes, rw (sizes w.file f) inside), AreInside-kept m after F ws sizes others)

module _ (clusters : Clusters) (self : Fs) (F : Ptr → Type 0) where
  write_all-Holds :
      (ws : List Write) (m : Memory) (store : Store)
      → IsLayout m self F
      → Holds m self F store
      → AreInside m F ws
      → (after : Memory) × (write_all clusters m self ws ≡ ok after)
        × ((p : Ptr) → F p → (inode_at after p).size ≡ (inode_at m p).size)
        × IsLayout after self F
        × Holds after self F (put_all store ws)
  unfolding write_all
  write_all-Holds [] m store layout holds valid = (m, refl, λ p f. refl, layout, holds)
  write_all-Holds (w ∷ ws) m store layout holds valid =
      let (next, run, sizes, layout', holds', _, _) =
        write-Holds clusters layout w valid.0 store holds in
      let (after, runs, sizes', layout'', holds'') =
        write_all-Holds ws next (put store w) layout' holds'
          (AreInside-kept m next F ws sizes valid.1) in
      (after, rw run runs, λ p f. sizes' p f ∙ sizes p f, layout'', holds'')

  -- A device whose block size is not 0 is a store of its files. If all blocks of these files are
  -- direct ones, each with a number that is below 2^16 and that the superblock counts, and with an
  -- offset, number times block size, below 2^32, no block number stands twice, in one file or in
  -- two, and no byte of a file lies in the superblock or in one of their inodes, then any sequence
  -- of writes, each of at least one byte inside one of the files, runs to its end and leaves such a
  -- layout and the size of the file, and a read after it of at least one byte inside a file gives
  -- what the store holds there: for each byte the one that the last write on it wrote, or else the
  -- one that was there before.
  pub write_all-read_inode_data :
      (m : Memory) (ws : List Write) (p : Ptr) (from n : ℕ)
      → IsLayout m self F
      → AreInside m F ws
      → F p
      → 0 < n
      → from + n ≤ (inode_at m p).size
      → (after : Memory) × (write_all clusters m self ws ≡ ok after)
        × IsLayout after self F
        × ((inode_at after p).size ≡ (inode_at m p).size)
        × (read_inode_data after self p from n ≡ ok (stored (put_all (held m self) ws) p from n))
  write_all-read_inode_data m ws p from n layout valid f some_bytes inside =
      let (after, run, sizes, layout', holds) =
        write_all-Holds ws m (held m self) layout (λ q k g h. refl) valid in
      let inside' : from + n ≤ (inode_at after p).size = rw (sizes p f) inside in
      (
        after,
        run,
        layout',
        sizes p f,
        read_inode_data-direct after self p from n layout'.pos some_bytes
              (λ b below. layout'.direct p f b (omega arith))
            ∙ ap ok
                (contents-stored after self F p f (put_all (held m self) ws) holds from n inside'),
      )
