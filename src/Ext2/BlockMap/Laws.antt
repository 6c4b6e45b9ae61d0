-- ===== src/Ext2/BlockMap/Laws.antt =====
-- Which slot of an inode the loop picks, and what the lookups behind it read.
use fuse_ext.Base.{
  pow-zero, pow-one, true, some, ℕ, zero, suc, ◌+◌, ◌^◌, ◌≤◌, ◌<◌, ◌≡◌, refl, ap, ◌∙◌, ltb, leb,
  if◌then◌else◌, List, [], ◌∷◌, get_elem?, Ptr, Memory, arith, ok, fault, Bool-cases, inl, inr,
}
use fuse_ext.Ext2.Layout.{inode_at}
use fuse_ext.Ext2.Geometry.{Fs, indirection_levels}
use fuse_ext.Ext2.BlockMap.{find_block_entry, base_block_loop, get_inode_block_entry}

abbrev direct : ℕ → List ℕ → List ℕ
direct zero rest = rest
direct (suc k) rest = 0 ∷ direct k rest

module _ (entries : ℕ) (rest : List ℕ) (e : ℕ) where
  slot_inside : (k i : ℕ) → i ≤ e → e < i + k → base_block_loop entries (direct k rest) i i e ≡ e
  unfolding base_block_loop
  slot_inside zero i lo hi = absurd (omega arith)
  slot_inside (suc k) i lo hi = rw pow-zero (elim (Bool-cases (ltb i e)) [
    | inl more ↦ rw more (slot_inside k (i + 1) (ground arith) (omega arith))
    | inr stop ↦ rw stop (ground arith)
  ])

  slot_behind :
      (k i : ℕ)
      → i + k ≤ e
      → base_block_loop entries (direct k rest) i i e
        ≡ base_block_loop entries rest (i + k) (i + k) e
  unfolding base_block_loop
  slot_behind zero i lo = ap (λ (t : ℕ). base_block_loop entries rest t t e) (omega arith)
  slot_behind (suc k) i lo =
      let more : ltb i e ≡ true = ground arith in
      rw (pow-zero, more)
        (slot_behind k (i + 1) (omega arith)
          ∙ ap (λ (t : ℕ). base_block_loop entries rest t t e) (omega arith))

abbrev slot : ℕ → ℕ → ℕ
slot entries e = base_block_loop entries indirection_levels 0 0 e

-- The slot behind the twelve direct ones, as the loop picks it.
slot_indirect :
    (entries e : ℕ)
    → 12 ≤ e
    → slot entries e ≡ (
        if leb e 12
        then 12
        else (if leb e (12 + entries)
            then 13
            else (if leb e (12 + entries + entries ^ 2) then 14 else 15)))
unfolding base_block_loop
slot_indirect entries e lo =
    slot_behind entries (1 ∷ 2 ∷ 3 ∷ []) e 12 0 lo ∙ rw pow-one (ground arith)

level_direct : (rest : List ℕ) (k e : ℕ) → e < k → get_elem? (direct k rest) e ≡ some 0
level_direct rest zero e h = absurd (omega arith)
level_direct rest (suc k) zero h = refl
level_direct rest (suc k) (suc e) h = level_direct rest k e (omega arith)

-- The first twelve blocks of a file are the first twelve slots of its inode.
pub get_inode_block_entry-direct :
    (m : Memory) (self : Fs) (node : Ptr) (e : ℕ)
    → e < 12
    → get_inode_block_entry m self node e ≡ ok ((inode_at m node).block e)
unfolding get_inode_block_entry
get_inode_block_entry-direct m self node e h =
    rw (slot_inside self.entries_per_block (1 ∷ 2 ∷ 3 ∷ []) e 12 0 (omega arith) h)
      (rw (level_direct (1 ∷ 2 ∷ 3 ∷ []) 12 e h))

-- The base block is ignored.
pub find_block_entry_base :
    (m : Memory) (self : Fs) (level base other e : ℕ)
    → find_block_entry m self base level e ≡ find_block_entry m self other level e
unfolding find_block_entry
find_block_entry_base m self zero base other e = refl
find_block_entry_base m self (suc level) base other e = refl

-- The lookup behind the direct blocks, by the slot that the loop picks. It starts at the slot for
-- one level of indirection only for the entry 12 itself, and it goes past the last slot, a read
-- behind the end of the array of levels, for all entries behind the second level.
pub get_inode_block_entry-indirect :
    (m : Memory) (self : Fs) (node : Ptr) (e : ℕ)
    → 12 ≤ e
    → let n = self.entries_per_block in
      let block = (inode_at m node).block in
      get_inode_block_entry m self node e ≡ (
        if leb e 12
        then find_block_entry m self (block 12) 1 e
        else (if leb e (12 + n)
            then find_block_entry m self (block 13) 2 e
            else (if leb e (12 + n + n ^ 2)
                then find_block_entry m self (block 14) 3 e
                else fault)))
unfolding get_inode_block_entry
get_inode_block_entry-indirect m self node e lo =
    rw (slot_indirect self.entries_per_block e lo) (ground arith)

-- Behind the twelve direct blocks the block of a file does not depend on the file: any two inodes
-- give the same block for the same entry.
pub get_inode_block_entry-any_inode :
    (m : Memory) (self : Fs) (node other : Ptr) (e : ℕ)
    → 12 ≤ e
    → get_inode_block_entry m self node e ≡ get_inode_block_entry m self other e
get_inode_block_entry-any_inode m self node other e lo =
    let block = λ (i : ℕ). (inode_at m node).block i in
    let block' = λ (i : ℕ). (inode_at m other).block i in
    ground (
      arith,
      get_inode_block_entry-indirect m self node e lo,
      get_inode_block_entry-indirect m self other e lo,
      find_block_entry_base m self 1 (block 12) (block' 12) e,
      find_block_entry_base m self 2 (block 13) (block' 13) e,
      find_block_entry_base m self 3 (block 14) (block' 14) e,
    )
