-- ===== src/Ext2/Data/Read.antt =====
-- Reading gives the bytes of the file, across its blocks.
use fuse_ext.Base.{
  ℕ, zero, suc, ◌+◌, ◌-◌, ◌*◌, ◌/◌, ◌≤◌, ◌<◌, ◌≡◌, ap, ap₂, ◌∙◌, ltb, ◌==◌, List, [], ◌++◌, Ptr,
  Memory, bytes_at, u32, arith, ok, Bool-cases, inl, inr, ltb→lt, ltb→le, false,
}
use native.Mathlib.Nat.{mul-div-le, lt-div-mul-add}
use fuse_ext.Ext2.Layout.{superblock_at, inode_at}
use fuse_ext.Ext2.Geometry.{Fs}
use fuse_ext.Ext2.Geometry.Laws.{IsSmall, get_block-some}
use fuse_ext.Ext2.BlockMap.Laws.{get_inode_block_entry-direct}
use fuse_ext.Ext2.Data.{data_block, next_size, first_size, read_loop, read_inode_data}
use fuse_ext.Ext2.Data.Content.{contents, contents_next, bytes_at-contents}

-- Every block that holds a byte from `offset` up to `end` is found at its address.
abbrev pub IsMapped : Memory → Fs → Ptr → (ℕ → Ptr) → ℕ → ℕ → Type 0
IsMapped m self inode addr offset end =
    (b : ℕ)
    → offset < b * self.block_size + self.block_size
    → b * self.block_size < end
    → data_block m self inode b ≡ ok (addr b)

-- Where a round of the copy stands: `n` bytes of block b from its byte o on are next, and they are
-- the bytes `copied` to `copied + n` of the request.
pub record IsRound (bs offset size copied b o n : ℕ) : Type 0 where
  pub at : b * bs + o ≡ offset + copied
  pub inside : o + n ≤ bs
  pub some_bytes : 0 < n
  pub wanted : copied + n ≤ size
  pub full : copied + n < size → o + n ≡ bs

pub next-IsRound :
    (self : Fs) {offset size copied b o n : ℕ}
    → 0 < self.block_size
    → IsRound self.block_size offset size copied b o n
    → copied + n < size
    → IsRound self.block_size offset size (copied + n) (b + 1) 0 (next_size self (copied + n) size)
next-IsRound self pos r more = let f = r.full more in ground arith

module _ (m : Memory) (self : Fs) (inode : Ptr) (addr : ℕ → Ptr) (offset size : ℕ)
    (pos : 0 < self.block_size) (mapped : IsMapped m self inode addr offset (offset + size)) where
  read_loop-contents :
      (fuel b copied o n : ℕ) (buff : List ℕ)
      → IsRound self.block_size offset size copied b o n
      → size < copied + fuel
      → read_loop m self inode size fuel b copied (addr b + o) n buff
        ≡ ok (buff ++ contents m self.block_size addr (offset + copied) (size - copied))
  unfolding read_loop
  read_loop-contents zero b copied o n buff r enough = absurd (let h = r.wanted in omega arith)
  read_loop-contents (suc fuel) b copied o n buff r enough =
      let bytes : bytes_at m (addr b + o) n ≡ contents m self.block_size addr (offset + copied) n =
        bytes_at-contents m self.block_size addr b o n r.inside
        ∙ ap (λ t. contents m self.block_size addr t n) r.at in
      let w = r.wanted in
      elim (Bool-cases (ltb (copied + n) size)) [
        | inl e ↦
            let more = ltb→lt (copied + n) size e in
            let full = r.full more in
            let at = r.at in
            let found : data_block m self inode (b + 1) ≡ ok (addr (b + 1)) =
              mapped (b + 1) (omega arith) (omega arith) in
            let start : addr (b + 1) ≡ addr (b + 1) + 0 = omega arith in
            let again = λ (t : Ptr).
              read_loop m self inode size fuel (b + 1) (copied + n) t
                (next_size self (copied + n) size) (buff ++ bytes_at m (addr b + o) n) in
            let rest =
              read_loop-contents fuel (b + 1) (copied + n) 0 (next_size self (copied + n) size)
                (buff ++ bytes_at m (addr b + o) n) (next-IsRound self pos r more)
                (omega (arith, r.some_bytes)) in
            rw e (
              rw found (
                ap again start
                ∙ rest
                ∙ ap ok (
                    contents_next m self.block_size addr buff (bytes_at m (addr b + o) n)
                      (offset + copied) n (size - (copied + n)) (offset + (copied + n))
                      (size - copied) bytes (omega arith) (omega arith))))
        | inr e ↦
            let less = ltb→le (copied + n) size e in
            let last : n ≡ size - copied = omega arith in
            rw e (
              ap ok (
                ap (λ t. buff ++ t)
                  (bytes ∙ ap (λ t. contents m self.block_size addr (offset + copied) t) last)))
      ]

  -- Reading a stretch that holds at least one byte gives exactly its bytes, in their order, through
  -- as many blocks as it touches. The loop ends.
  pub read_inode_data-contents :
      0 < size
      → read_inode_data m self inode offset size ≡ ok (contents m self.block_size addr offset size)
  unfolding read_inode_data
  read_inode_data-contents some_size =
      let b = offset / self.block_size in
      let o = offset - offset / self.block_size * self.block_size in
      let ne : (self.block_size == 0) ≡ false = ground arith in
      let below : b * self.block_size ≤ offset = omega (arith, mul-div-le offset self.block_size) in
      let above : offset < b * self.block_size + self.block_size = lt-div-mul-add pos in
      let found : data_block m self inode b ≡ ok (addr b) = mapped b above (omega arith) in
      let start : IsRound self.block_size offset size 0 b o (first_size self o size) =
        ground arith in
      let whole =
        read_loop-contents (size + 1) b 0 o (first_size self o size) [] start (omega arith) in
      rw ne (
        rw found (
          whole
          ∙ ap₂ (λ (k n : ℕ). ok (contents m self.block_size addr k n)) (omega arith)
              (omega arith)))

-- The blocks of a file from its start up to `end` stand in the direct slots of its inode, each with
-- a number that is below 2^16 and that the superblock counts, and with an offset, number times
-- block size, below 2^32: the cuts of `ext2_get_block` to 16 and 32 bits leave them alone.
abbrev pub IsDirect : Memory → Fs → Ptr → ℕ → Type 0
IsDirect m self inode end =
    (b : ℕ)
    → b * self.block_size < end
    → (b < 12)
      × IsSmall self ((inode_at m inode).block b)
      × ((inode_at m inode).block b < (superblock_at m self.superblock).blockcount)

-- The address of a direct block.
abbrev pub direct_block : Memory → Fs → Ptr → ℕ → Ptr
direct_block m self inode b = self.device + (inode_at m inode).block b * self.block_size

pub direct-IsMapped :
    (m : Memory) (self : Fs) (inode : Ptr) (offset end : ℕ)
    → IsDirect m self inode end
    → IsMapped m self inode (direct_block m self inode) offset end
unfolding data_block
direct-IsMapped m self inode offset end direct b lo hi =
    let (few, small, valid) = direct b hi in
    let cut : u32 b ≡ b = omega arith in
    rw (cut, get_inode_block_entry-direct m self inode b few)
      (rw (get_block-some m self _ small valid))

-- With a block size that is not 0, reading a stretch of at least one byte, when all blocks of the
-- file up to the end of the stretch are direct ones, each with a number that is below 2^16 and that
-- the superblock counts, and with an offset, number times block size, below 2^32, gives exactly the
-- bytes of the file from `offset` on, in their order: byte k is byte k % block_size of the block
-- that slot k / block_size of the inode names. The loop ends, and nothing faults.
pub read_inode_data-direct :
    (m : Memory) (self : Fs) (inode : Ptr) (offset size : ℕ)
    → 0 < self.block_size
    → 0 < size
    → IsDirect m self inode (offset + size)
    → read_inode_data m self inode offset size
      ≡ ok (contents m self.block_size (direct_block m self inode) offset size)
read_inode_data-direct m self inode offset size pos some_size direct =
    read_inode_data-contents m self inode (direct_block m self inode) offset size pos
      (direct-IsMapped m self inode offset (offset + size) direct) some_size
