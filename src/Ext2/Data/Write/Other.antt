-- ===== src/Ext2/Data/Write/Other.antt =====
-- A write to one file and a read of another.
use fuse_ext.Base.{
  ℕ, zero, suc, ◌+◌, ◌*◌, ◌/◌, ◌%◌, ◌≤◌, ◌<◌, ◌≡◌, ◌≢◌, refl, sym, ap, ap₂, ◌∙◌, List, ◌∷◌, length,
  Ptr, Memory, arith, ok, inl, same_quotient,
}
use native.Mathlib.Nat.{mul-div-le, mod-lt}
use fuse_ext.Ext2.Layout.{inode_at}
use fuse_ext.Ext2.Geometry.{Fs}
use fuse_ext.Ext2.Resize.{Clusters}
use fuse_ext.Ext2.Data.{write_inode_data, read_inode_data}
use fuse_ext.Ext2.Data.Content.{content, contents}
use fuse_ext.Ext2.Data.Read.{
  IsDirect, direct_block, read_inode_data-contents, read_inode_data-direct,
}
use fuse_ext.Ext2.Data.Same.{IsSame, same_size, same-IsMapped}
use fuse_ext.Ext2.Data.Write.{write_inode_data-IsWritten}
use fuse_ext.Ext2.Data.Write.Loop.{position, IsElsewhere}
use fuse_ext.Ext2.Data.Write.Stretch.{IsWritable}

contents_same :
    (m m' : Memory) (bs : ℕ) (addr : ℕ → Ptr) (k n : ℕ)
    → ((l : ℕ) → k ≤ l → l < k + n → content m' bs addr l ≡ content m bs addr l)
    → contents m' bs addr k n ≡ contents m bs addr k n
contents_same m m' bs addr k zero same = refl
contents_same m m' bs addr k (suc n) same =
    ap₂ ◌∷◌ (same k (omega arith) (omega arith))
      (contents_same m m' bs addr (k + 1) n λ l lo hi. same l (omega arith) (omega arith))

module _ (clusters : Clusters) (m : Memory) (self : Fs) (inode other : Ptr) (buff : List ℕ)
    (offset from size : ℕ) (writable : IsWritable m self inode offset (offset + length buff))
    (some_bytes : 0 < length buff) (long : offset + length buff ≤ (inode_at m inode).size)
    (some_size : 0 < size) (direct : IsDirect m self other (from + size))
    (apart : (b c : ℕ)
      → b * self.block_size < from + size
      → c * self.block_size < offset + length buff
      → (inode_at m other).block b ≢ (inode_at m inode).block c)
    (clear : (a : Ptr)
      → other ≤ a
      → a < other + 128
      → IsElsewhere self.block_size
          (direct_block m self inode)
          offset
          (offset + length buff)
          a) where
  apart_positions :
      (k : ℕ)
      → k < from + size
      → IsElsewhere self.block_size
          (direct_block m self inode)
          offset
          (offset + length buff)
          (position self.block_size (direct_block m self other) k)
  apart_positions k inside l lo hi same =
      let bs = self.block_size in
      let x : ℕ = (inode_at m other).block (k / bs) in
      let y : ℕ = (inode_at m inode).block (l / bs) in
      let offsets : x * bs + k % bs ≡ y * bs + l % bs = omega arith in
      apart (k / bs) (l / bs) (omega (arith, mul-div-le k bs)) (omega (arith, mul-div-le l bs)) (
        (same_quotient x y (k % bs) (l % bs) bs (mod-lt k writable.pos) (mod-lt l writable.pos)
          offsets).0)

  -- A write of at least one byte, inside a file's size, where the stretch is writable as in
  -- `IsWritable` and none of its bytes lies in another inode, changes neither the size nor the
  -- contents of the file of the other inode: a read of a stretch of at least one byte in direct
  -- blocks as in `IsDirect`, none of which is one of the file that is written, gives after the
  -- write what it gives before.
  pub read_inode_data-other_file :
      (after : Memory) × (write_inode_data clusters m self inode buff offset ≡ ok after)
      × (read_inode_data after self other from size ≡ read_inode_data m self other from size)
      × ((inode_at after other).size ≡ (inode_at m other).size)
  read_inode_data-other_file =
      let bs = self.block_size in
      let addr = direct_block m self other in
      let (after, run, written) =
        write_inode_data-IsWritten clusters m self inode buff offset writable some_bytes long in
      let same : IsSame m after self other = record {
        superblock = λ i h. written.elsewhere _ (writable.clear _ (inl (omega arith, omega arith)));
        of_inode = λ i h. written.elsewhere _ (clear _ (omega arith) (omega arith));
      } in
      (
        after,
        run,
        read_inode_data-contents after self other addr from size writable.pos
              (same-IsMapped same from (from + size) direct) some_size
            ∙ ap ok (
                contents_same m after bs addr from size
                  λ k lo hi. written.elsewhere (position bs addr k) (apart_positions k hi))
            ∙ sym (read_inode_data-direct m self other from size writable.pos some_size direct),
        same_size same,
      )
