-- ===== src/Ext2/Data/Write/Stretch.antt =====
-- A stretch of a file that a write may fill.
use fuse_ext.Base.{
  ℕ, ◌+◌, ◌*◌, ◌/◌, ◌%◌, ◌≤◌, ◌<◌, ◌≡◌, ◌⊎◌, sym, ap₂, ◌∙◌, Ptr, Memory, arith, inl, inr,
  same_quotient,
}
use native.Mathlib.Nat.{mul-div-le, div-add-mod, mod-lt}
use fuse_ext.Ext2.Layout.{inode_at}
use fuse_ext.Ext2.Geometry.{Fs}
use fuse_ext.Ext2.Data.Read.{IsDirect, direct_block}
use fuse_ext.Ext2.Data.Same.{IsSame}
use fuse_ext.Ext2.Data.Write.Loop.{position, IsElsewhere}

-- A stretch of a file that can be written in place.
pub record IsWritable (m : Memory) (self : Fs) (inode : Ptr) (offset end : ℕ) : Type 0 where
  pub pos : 0 < self.block_size
  -- it lies in direct blocks as in `IsDirect`, with numbers below 2^16 that the superblock counts
  -- and offsets below 2^32, and no block is used twice
  pub direct : IsDirect m self inode end
  pub apart :
      (b c : ℕ)
      → b * self.block_size < end
      → c * self.block_size < end
      → (inode_at m inode).block b ≡ (inode_at m inode).block c
      → b ≡ c
  -- no byte of it lies in the superblock or in the inode
  pub clear :
      (a : Ptr)
      → ((self.superblock ≤ a) × (a < self.superblock + 204)) ⊎ ((inode ≤ a) × (a < inode + 128))
      → IsElsewhere self.block_size (direct_block m self inode) offset end a

module _ (m : Memory) (self : Fs) (inode : Ptr) (offset end : ℕ)
    (writable : IsWritable m self inode offset end) where
  pub block_below : (k : ℕ) → k < end → k / self.block_size * self.block_size < end
  block_below k h = omega (arith, mul-div-le k self.block_size)

  pub distinct :
      (k l : ℕ)
      → k < end
      → l < end
      → position self.block_size (direct_block m self inode) k
        ≡ position self.block_size (direct_block m self inode) l
      → k ≡ l
  distinct k l hk hl same =
      let bs = self.block_size in
      let n = λ (b : ℕ). (inode_at m inode).block b in
      let offsets : n (k / bs) * bs + k % bs ≡ n (l / bs) * bs + l % bs = omega arith in
      let (blocks, rests) =
        same_quotient (n (k / bs)) (n (l / bs)) (k % bs) (l % bs) bs (mod-lt k writable.pos)
          (mod-lt l writable.pos) offsets in
      let quotients =
        writable.apart (k / bs) (l / bs) (block_below k hk) (block_below l hl) blocks in
      sym (div-add-mod k bs) ∙ ap₂ (λ (q r : ℕ). bs * q + r) quotients rests ∙ div-add-mod l bs

  -- What is written does not change the superblock and the inode.
  pub elsewhere-IsSame :
      (other : Memory)
      → ((a : Ptr)
          → IsElsewhere self.block_size (direct_block m self inode) offset end a
          → other a ≡ m a)
      → IsSame m other self inode
  elsewhere-IsSame other same = record {
    superblock = λ i h. same _ (writable.clear _ (inl (omega arith, omega arith)));
    of_inode = λ i h. same _ (writable.clear _ (inr (omega arith, omega arith)));
  }
