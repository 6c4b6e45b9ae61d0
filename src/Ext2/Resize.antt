-- ===== src/Ext2/Resize.antt =====
-- `ext2_resize_inode_data`. The two functions that it calls to add and to remove clusters stand
-- nowhere in the sources: they are parameters.
pub mod Laws
use fuse_ext.Base.{
  ℕ, ◌+◌, ◌-◌, ◌/◌, ◌%◌, ◌==◌, ltb, if◌then◌else◌, u32, Ptr, Memory, poke, Outcome, ok, fault,
  ◌>>=◌,
}
use fuse_ext.Ext2.Layout.{inode_at}
use fuse_ext.Ext2.Geometry.{Fs}

-- ext2_add_clusters and ext2_remove_clusters: the number of clusters, the memory after.
pub record Clusters : Type 0 where
  pub add_clusters : Memory → Fs → Ptr → ℕ → Outcome Memory
  pub remove_clusters : Memory → Fs → Ptr → ℕ → Outcome Memory

-- `*p = v` for a uint32_t, little-endian.
abbrev pub write32 : Memory → Ptr → ℕ → Memory
write32 m p v =
    poke (poke (poke (poke m p (v % 256)) (p + 1) (v / 256 % 256)) (p + 2) (v / 65536 % 256))
      (p + 3) (v / 16777216 % 256)

-- The quotient of two doubles, rounded up.
abbrev pub ceil_div : ℕ → ℕ → ℕ
ceil_div a b = (a + b - 1) / b

module _ (clusters : Clusters) where
  -- The clusters that the inode gains or loses.
  unfoldable pub change_clusters : Memory → Fs → Ptr → ℕ → ℕ → Outcome Memory
  change_clusters m self inode new_clusters curr_clusters =
      if ltb curr_clusters new_clusters
      then clusters.add_clusters m self inode (new_clusters - curr_clusters)
      else clusters.remove_clusters m self inode (curr_clusters - new_clusters)

  unfoldable pub resize_inode_data : Memory → Fs → Ptr → ℕ → Outcome Memory
  unfolding change_clusters
  resize_inode_data m self inode new_size =
      if self.block_size == 0
      then fault
      else (let new_clusters = ceil_div new_size self.block_size in
          let curr_clusters = ceil_div (inode_at m inode).size self.block_size in
          if new_clusters == curr_clusters then ok m else (do
            m' ← change_clusters m self inode new_clusters curr_clusters
            ok (write32 m' (inode + 4) (u32 new_size))))
