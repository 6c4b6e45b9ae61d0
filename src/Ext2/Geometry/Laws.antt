-- ===== src/Ext2/Geometry/Laws.antt =====
-- Blocks of the device, and what `ext2_create` computes.
use fuse_ext.Base.{
  pow-zero, pow-one, mul-lt, ℕ, ◌+◌, ◌*◌, ◌/◌, ◌^◌, ◌≤◌, ◌<◌, ◌≡◌, ◌≢◌, ltb, if◌then◌else◌, none,
  some, u32, u16, Ptr, Memory, arith, ok, sub_u32,
}
use fuse_ext.Ext2.Layout.{superblock_at}
use fuse_ext.Ext2.Geometry.{
  Fs, get_block, get_block_size, get_inode_blocks_amount, get_number_of_block_group, create,
  ext2_super_magic,
}

-- A block number that its cuts leave alone: the number fits 16 bits and its offset 32.
pub record IsSmall (self : Fs) (n : ℕ) : Type 0 where
  pub number : n < 2 ^ 16
  pub offset : n * self.block_size < 2 ^ 32

-- Of such a block the address is its offset in the device, exactly when the superblock counts it.
pub get_block_lem :
    (m : Memory) (self : Fs) (n : ℕ)
    → IsSmall self n
    → get_block m self n ≡ (
        if ltb n (superblock_at m self.superblock).blockcount
        then some (self.device + n * self.block_size)
        else none)
unfolding get_block
get_block_lem m self n small = ground arith

pub get_block-some :
    (m : Memory) (self : Fs) (n : ℕ)
    → IsSmall self n
    → n < (superblock_at m self.superblock).blockcount
    → get_block m self n ≡ some (self.device + n * self.block_size)
get_block-some m self n small valid = ground (arith, get_block_lem m self n small)

get_block-valid :
    (m : Memory) (self : Fs) (n : ℕ) {p : Ptr}
    → IsSmall self n
    → get_block m self n ≡ some p
    → (n < (superblock_at m self.superblock).blockcount) × (p ≡ self.device + n * self.block_size)
get_block-valid m self n small found = ground (arith, get_block_lem m self n small)

-- Of blocks whose numbers fit 16 bits and offsets 32 bits: a block that is found lies inside the
-- blocks that the superblock counts, and two blocks that are found do not overlap.
pub get_block_bounds :
    (m : Memory) (self : Fs) (n k : ℕ) {p q : Ptr}
    → IsSmall self n
    → IsSmall self k
    → get_block m self n ≡ some p
    → get_block m self k ≡ some q
    → (p + self.block_size
        ≤ self.device + (superblock_at m self.superblock).blockcount * self.block_size)
      × (n < k → p + self.block_size ≤ q)
get_block_bounds m self n k {p} {q} small_n small_k found_n found_k =
    let (in_n, at_n) = get_block-valid m self n small_n found_n in
    let (in_k, at_k) = get_block-valid m self k small_k found_k in
    (
      omega (arith, mul-lt _ _ self.block_size in_n),
      λ lt. omega (arith, mul-lt n k self.block_size lt),
    )

-- The parameter of `ext2_get_block` has 16 bits: block numbers that differ by a multiple of 65536
-- give the same address, or NULL alike.
pub get_block_cut :
    (m : Memory) (self : Fs) (n k : ℕ) → get_block m self (n + 2 ^ 16 * k) ≡ get_block m self n
unfolding get_block
get_block_cut m self n k = let e : u16 (n + 2 ^ 16 * k) ≡ u16 n = omega arith in rw e

-- A power of two of 1024 bytes, when its bits fit.
pub get_block_size_lem :
    (m : Memory) (superblock : Ptr)
    → 1024 * 2 ^ (superblock_at m superblock).log_block_size < 2 ^ 32
    → get_block_size m superblock ≡ 1024 * 2 ^ (superblock_at m superblock).log_block_size
unfolding get_block_size
get_block_size_lem m superblock fits = ground arith

-- The blocks that an inode can reach: twelve direct ones, and those behind one, two and three
-- levels of indirection.
pub get_inode_blocks_amount_lem :
    (entries : ℕ) → get_inode_blocks_amount entries ≡ u32 (12 + entries + entries ^ 2 + entries ^ 3)
unfolding get_inode_blocks_amount
get_inode_blocks_amount_lem entries = rw (pow-zero, pow-one) (omega arith)

-- What `ext2_create` promises about the file system that it returns.
pub record IsMounted (m : Memory) (self : Fs) : Type 0 where
  pub superblock : self.superblock ≡ self.device + 1024
  pub magic : (superblock_at m self.superblock).magic ≡ ext2_super_magic
  pub block_size :
      self.block_size ≡ u32 (1024 * 2 ^ (superblock_at m self.superblock).log_block_size)
  pub entries : self.entries_per_block ≡ self.block_size / 4
  pub blocks :
      self.inode_blocks_amount
      ≡ u32 (12 + self.entries_per_block + self.entries_per_block ^ 2 + self.entries_per_block ^ 3)
  pub has_groups : (superblock_at m self.superblock).blockper_group ≢ 0
  pub groups :
      self.number_of_block_groups
      ≡ u16 (
          sub_u32
            (superblock_at m self.superblock).blockcount
            (superblock_at m self.superblock).first_data_block
          / (superblock_at m self.superblock).blockper_group)

-- A file system that `ext2_create` returns has the superblock at byte 1024 of the device, with
-- the magic number; its block size, entries per block, number of blocks that an inode can reach
-- and number of groups are those that the superblock gives, and a group has at least one block.
pub create-IsMounted :
    (m : Memory) (device : Ptr) {self : Fs}
    → create m device ≡ ok (some self)
    → IsMounted m self × (self.device ≡ device)
unfolding create get_block_size get_number_of_block_group
create-IsMounted m device h = ground (
  arith,
  get_inode_blocks_amount_lem
      (u32 (1024 * 2 ^ (superblock_at m (device + 1024)).log_block_size) / 4),
)
