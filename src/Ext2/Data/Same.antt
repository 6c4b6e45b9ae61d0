-- ===== src/Ext2/Data/Same.antt =====
-- What two memories that agree on the superblock and on an inode agree on.
use fuse_ext.Base.{ℕ, ◌+◌, ◌*◌, ◌<◌, ◌≡◌, sym, ap, ◌∙◌, Ptr, Memory, arith, ok, read32-same}
use native.Mathlib.Nat.{add_assoc}
use fuse_ext.Ext2.Layout.{superblock_at, inode_at}
use fuse_ext.Ext2.Geometry.{Fs}
use fuse_ext.Ext2.Data.Read.{IsMapped, IsDirect, direct_block, direct-IsMapped}

-- The bytes of the superblock and of the inode are the same.
pub record IsSame (m other : Memory) (self : Fs) (inode : Ptr) : Type 0 where
  pub superblock : (i : ℕ) → i < 204 → other (self.superblock + i) ≡ m (self.superblock + i)
  pub of_inode : (i : ℕ) → i < 128 → other (inode + i) ≡ m (inode + i)

module _ {m other : Memory} {self : Fs} {inode : Ptr} (same : IsSame m other self inode) where
  same_blockcount :
      (superblock_at other self.superblock).blockcount
      ≡ (superblock_at m self.superblock).blockcount
  same_blockcount = read32-same other m (self.superblock + 4) λ i h.
      ap other (add_assoc self.superblock 4 i)
      ∙ same.superblock (4 + i) (omega arith)
      ∙ ap m (sym (add_assoc self.superblock 4 i))

  pub same_block : (b : ℕ) → b < 12 → (inode_at other inode).block b ≡ (inode_at m inode).block b
  same_block b h = read32-same other m (inode + 40 + 4 * b) λ i below.
      let e : inode + 40 + 4 * b + i ≡ inode + (40 + 4 * b + i) = omega arith in
      ap other e ∙ same.of_inode (40 + 4 * b + i) (omega arith) ∙ ap m (sym e)

  pub same_size : (inode_at other inode).size ≡ (inode_at m inode).size
  same_size = read32-same other m (inode + 4) λ i h.
      ap other (add_assoc inode 4 i)
      ∙ same.of_inode (4 + i) (omega arith)
      ∙ ap m (sym (add_assoc inode 4 i))

  pub same-IsDirect : (end : ℕ) → IsDirect m self inode end → IsDirect other self inode end
  same-IsDirect end direct b below =
      let (few, small, valid) = direct b below in
      (
        few,
        record {
          number = rw (same_block b few) small.number;
          offset = rw (same_block b few) small.offset;
        },
        rw (same_block b few, same_blockcount) valid,
      )

  -- The blocks are where they were.
  pub same-IsMapped :
      (offset end : ℕ)
      → IsDirect m self inode end
      → IsMapped other self inode (direct_block m self inode) offset end
  same-IsMapped offset end direct b lo hi =
      direct-IsMapped other self inode offset end (same-IsDirect end direct) b lo hi
      ∙ ap (λ (t : ℕ). ok (self.device + t * self.block_size)) (same_block b (direct b hi).0)
