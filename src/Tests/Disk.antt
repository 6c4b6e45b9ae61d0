-- ===== src/Tests/Disk.antt =====
-- A device of 16 blocks of 1024 bytes with one file, /hello, of 1500 bytes in the blocks 9 and 10.
use fuse_ext.Base.{
  ℕ, zero, suc, copy_in, ◌+◌, ◌<◌, ◌≡◌, refl, List, [], ◌∷◌, ◌==◌, if◌then◌else◌, Memory, IsBytes,
  arith, ◌/◌, ◌≤◌, some, none, ok, ltb, ltb→lt, true, ◌&&◌, Bool,
}
use fuse_ext.Bitarray.{Bitarray}
use fuse_ext.Ext2.Layout.{inode_at}
use fuse_ext.Ext2.Geometry.{Fs}
use fuse_ext.Ext2.Groups.{BlockGroup}
use fuse_ext.Ext2.Resize.{Clusters}
use fuse_ext.Ext2.Data.Read.{IsDirect, direct_block}
use fuse_ext.Ext2.Data.Write.Stretch.{IsWritable}
use fuse_ext.Ext2.Data.Write.Loop.{position}

abbrev pub from_table : List (ℕ × ℕ) → Memory
from_table [] a = 0
from_table ((p, v) ∷ t) a = if a == p then v else from_table t a

-- The superblock at byte 1024, the descriptor in block 2, the inodes in block 5, the root directory
-- in block 8.
abbrev pub table : List (ℕ × ℕ)
table =
    -- blockcount, first_data_block, blockper_group, inodeper_group, magic, inode_size
    (1028, 16)
    ∷ (1044, 1)
    ∷ (1056, 15)
    ∷ (1064, 16)
    ∷ (1080, 0x53)
    ∷ (1081, 0xef)
    ∷ (1112, 128)
    -- block_bitmap, inode_bitmap, inode_table; the bitmap
    ∷ (2048, 3)
    ∷ (2052, 4)
    ∷ (2056, 5)
    ∷ (3072, 0xa0)
    -- inode 2: mode, size, blocks, block
    ∷ (5249, 0x40)
    ∷ (5253, 4)
    ∷ (5276, 2)
    ∷ (5288, 8)
    -- inode 12: mode, size, links, blocks, block
    ∷ (6529, 0x80)
    ∷ (6532, 0xdc)
    ∷ (6533, 5)
    ∷ (6554, 1)
    ∷ (6556, 4)
    ∷ (6568, 9)
    ∷ (6572, 10)
    -- the entry: inode, rec_len, name_len, name
    ∷ (8192, 12)
    ∷ (8197, 4)
    ∷ (8198, 5)
    ∷ (8200, b'h')
    ∷ (8201, b'e')
    ∷ (8202, b'l')
    ∷ (8203, b'l')
    ∷ (8204, b'o')
    -- the file around the border of its blocks
    ∷ (10238, b'a')
    ∷ (10239, b'b')
    ∷ (10240, b'c')
    ∷ (10241, b'd')
    ∷ []

abbrev pub disk : Memory
disk = from_table table

abbrev pub fs : Fs
fs = record {
  device = 0;
  superblock = 1024;
  block_size = 1024;
  inode_blocks_amount = 16843020;
  entries_per_block = 256;
  number_of_block_groups = 1;
}

abbrev pub hello : List ℕ
hello = b'/' ∷ b'h' ∷ b'e' ∷ b'l' ∷ b'l' ∷ b'o' ∷ []

abbrev pub buff : List ℕ
buff = 1 ∷ 2 ∷ 3 ∷ 4 ∷ []

-- The device with these bytes written from offset 1022 of the file on.
abbrev pub after_write : Memory
after_write = copy_in (copy_in disk 10238 (1 ∷ 2 ∷ [])) 10240 (3 ∷ 4 ∷ [])

abbrev pub root_inode : ℕ
root_inode = 5248

abbrev pub hello_inode : ℕ
hello_inode = 6528

abbrev small_values : List (ℕ × ℕ) → Bool
small_values [] = true
small_values ((p, v) ∷ t) = ltb v 256 && small_values t

pub from_table-IsBytes : (t : List (ℕ × ℕ)) → small_values t ≡ true → IsBytes (from_table t)
from_table-IsBytes [] h a = omega arith
from_table-IsBytes ((p, v) ∷ t) h a =
    let values : (ltb v 256 ≡ true) × (small_values t ≡ true) = ground arith in
    let rest : from_table t a < 256 = from_table-IsBytes t values.1 a in
    let first : v < 256 = ltb→lt v 256 values.0 in ground arith

pub disk-IsBytes : IsBytes disk
disk-IsBytes = from_table-IsBytes table refl

pub hello_block : (b : ℕ) → b < 2 → (inode_at disk hello_inode).block b ≡ 9 + b
hello_block zero h = refl
hello_block (suc zero) h = refl
hello_block (suc (suc b)) h = absurd (omega arith)

-- The file is in direct blocks, and can be written anywhere in them.
pub hello-IsDirect : (end : ℕ) → end ≤ 2048 → IsDirect disk fs hello_inode end
hello-IsDirect end h b below =
    let at = hello_block b (omega arith) in
    (omega arith, record { number = omega arith; offset = omega arith }, omega arith)

pub hello_position : (k : ℕ) → k < 2048 → 9216 ≤ position 1024 (direct_block disk fs hello_inode) k
hello_position k h = let at = hello_block (k / 1024) (omega arith) in omega arith

pub hello-IsWritable : (offset end : ℕ) → end ≤ 2048 → IsWritable disk fs hello_inode offset end
hello-IsWritable offset end h = record {
  pos = omega arith;
  direct = hello-IsDirect end h;
  apart = λ b c hb hc same.
      let at = hello_block b (omega arith) in let at' = hello_block c (omega arith) in omega arith;
  clear = λ a inside k lo hi same. let far = hello_position k (omega arith) in absurd (omega arith);
}

-- No cluster is added or removed.
abbrev pub no_clusters : Clusters
no_clusters = record {
  add_clusters = λ m self inode n. ok m;
  remove_clusters = λ m self inode n. ok m;
}

-- A device with fewer blocks than its one group has.
abbrev pub small_disk : Memory
small_disk =
    from_table ((1028, 10) ∷ (1044, 1) ∷ (1056, 15) ∷ (1064, 16) ∷ (1080, 0x53) ∷ (1081, 0xef) ∷ [])

abbrev pub small_fs : Fs
small_fs = record fs { number_of_block_groups = 0 }

-- A device with two groups; the second starts with a copy of the descriptor table.
abbrev pub two_groups : Memory
two_groups =
    from_table ((1028, 31) ∷ (1044, 1) ∷ (1056, 15) ∷ (1064, 16) ∷ (2056, 5) ∷ (17416, 5) ∷ [])

abbrev pub two_groups_fs : Fs
two_groups_fs = record fs { number_of_block_groups = 2 }

-- A group with eight bits in its block bitmap.
abbrev pub bitmap : Bitarray
bitmap = record { bitarray = 3072; size = 1 }

abbrev pub group : BlockGroup
group = record {
  number = 0;
  first_block = 3;
  has_superblock = true;
  superblock = some 1024;
  block_group_descriptor = some 2048;
  block_bitmap = some bitmap;
  inode_bitmap = none;
  inodes_table = some 5120;
}
