-- ===== src/Tests/Files.antt =====
-- The theorems on writes past the end of a file at the device of the tests.
use fuse_ext.Base.{◌⊎◌, ℕ, zero, suc, ◌+◌, ◌/◌, ◌<◌, ◌≤◌, ◌≡◌, ◌≢◌, refl, Memory, arith, ok}
use fuse_ext.Ext2.Layout.{inode_at}
use fuse_ext.Ext2.Resize.{Clusters, write32, resize_inode_data}
use fuse_ext.Ext2.Resize.Laws.{resize_inode_data-size}
use fuse_ext.Ext2.Data.{read_inode_data, write_inode_data}
use fuse_ext.Ext2.Data.Read.{IsDirect, direct_block}
use fuse_ext.Ext2.Data.Write.Loop.{IsWritten, position}
use fuse_ext.Ext2.Data.Write.Stretch.{IsWritable}
use fuse_ext.Ext2.Data.Write.Grown.{grown, write_inode_data-grown}
use fuse_ext.Tests.Disk.{disk, fs, buff, hello_inode, no_clusters}

-- Block 11 becomes the third block of the inode.
abbrev one_more : Clusters
one_more = record {
  add_clusters = λ m self inode n. ok (write32 m (inode + 48) 11);
  remove_clusters = λ m self inode n. ok m;
}

abbrev with_block : Memory
with_block = write32 disk (hello_inode + 48) 11

abbrev longer : Memory
longer = grown with_block hello_inode 2050

longer_block : (b : ℕ) → b < 3 → (inode_at longer hello_inode).block b ≡ 9 + b
longer_block zero h = refl
longer_block (suc zero) h = refl
longer_block (suc (suc zero)) h = refl
longer_block (suc (suc (suc b))) h = absurd (omega arith)

longer-IsDirect : IsDirect longer fs hello_inode 2050
longer-IsDirect b below =
    let at = longer_block b (omega arith) in
    (omega arith, record { number = omega arith; offset = omega arith }, omega arith)

behind_inodes : (k : ℕ) → k < 2050 → 9216 ≤ position 1024 (direct_block longer fs hello_inode) k
behind_inodes k h = let at = longer_block (k / 1024) (omega arith) in omega arith

longer-IsWritable : IsWritable longer fs hello_inode 2046 2050
longer-IsWritable = record {
  pos = omega arith;
  direct = longer-IsDirect;
  apart = λ b c hb hc same.
      let at = longer_block b (omega arith) in
      let at' = longer_block c (omega arith) in omega arith;
  clear = λ a inside k lo hi same. let far = behind_inodes k (omega arith) in absurd (omega arith);
}

grown_example :
    (after : Memory) × (write_inode_data one_more disk fs hello_inode buff 2046 ≡ ok after)
    × ((inode_at after hello_inode).size ≡ 2050)
    × IsWritten 1024 (direct_block longer fs hello_inode) buff 2046 2046 2050 longer after
    × (read_inode_data after fs hello_inode 2046 4 ≡ ok buff)
grown_example =
    write_inode_data-grown one_more disk fs hello_inode buff 2046 (omega arith) (omega arith)
      (omega arith) (omega arith) refl longer-IsWritable

resized : resize_inode_data no_clusters disk fs hello_inode 1600 ≡ ok disk
unfolding resize_inode_data
resized = refl

size_example :
    ((◌≡◌ {A = ℕ} 2 2) × (disk ≡ disk))
    ⊎ ((◌≢◌ {A = ℕ} 2 2) × ((inode_at disk hello_inode).size ≡ 1600))
size_example =
    resize_inode_data-size no_clusters disk fs hello_inode 1600 (λ e. omega arith) (omega arith)
      resized
