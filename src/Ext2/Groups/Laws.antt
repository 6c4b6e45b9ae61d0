-- ===== src/Ext2/Groups/Laws.antt =====
-- Where the inodes lie, and the groups for which they are not found or found wrongly.
use fuse_ext.Base.{
  split_index, ℕ, ◌+◌, ◌*◌, ◌/◌, ◌%◌, ◌^◌, ◌≤◌, ◌<◌, ◌≡◌, refl, sym, ap, ◌∙◌, true, false, ◌==◌,
  some, u16, u32, sub_u32, Ptr, Memory, arith, ok, fault, ◌>>=◌, deref, le→leb, lt→leb, Bool-cases,
  inl, inr,
}
use native.Mathlib.Nat.{div-eq_of_lt}
use fuse_ext.Ext2.Layout.{superblock_at, descriptor_at, sizeof_inode}
use fuse_ext.Ext2.Geometry.{Fs, get_block, has_superblock, create}
use fuse_ext.Ext2.Geometry.Laws.{create-IsMounted}
use fuse_ext.Ext2.Groups.{
  group_with_superblock, group_without_superblock, get_block_group, inode_in_group, get_root_inode,
  get_inode, root_inode_index,
}

-- The first block of a group.
abbrev pub start_of : Memory → Fs → ℕ → ℕ
start_of m self g = u32 (
    u32 (g * (superblock_at m self.superblock).blockper_group)
    + (superblock_at m self.superblock).first_data_block)

-- The root is inode 2.
pub get_root_inode-get_inode :
    (m : Memory) (self : Fs)
    → 2 ≤ (superblock_at m self.superblock).inodeper_group
    → get_root_inode m self ≡ get_inode m self 2
unfolding get_root_inode get_inode
get_root_inode-get_inode m self two =
    let ipg = (superblock_at m self.superblock).inodeper_group in
    let first : 1 / ipg ≡ 0 = ground arith in
    let second : 1 % ipg ≡ 1 = ground arith in
    let pos : (ipg == 0) ≡ false = ground arith in rw (pos, first, second)

-- No group, no inode: every lookup reads through a NULL group.
no_group :
    (m : Memory) (self : Fs) (g i : ℕ)
    → self.number_of_block_groups ≤ u16 g
    → inode_in_group m self g i ≡ fault
unfolding inode_in_group get_block_group
no_group m self g i none_left = rw (le→leb _ _ none_left)

few : (a b : ℕ) → a < b → u16 (a / b) ≡ 0
few a b h = rw (div-eq_of_lt h)

-- The number of groups is rounded down. A device whose blocks do not fill one group is mounted
-- with no group at all, and its root inode cannot be read.
pub get_root_inode-small_device :
    (m : Memory) (device : Ptr) {self : Fs}
    → create m device ≡ ok (some self)
    → let s = superblock_at m (device + 1024) in
      sub_u32 s.blockcount s.first_data_block < s.blockper_group → get_root_inode m self ≡ fault
unfolding get_root_inode
get_root_inode-small_device m device {self} made small =
    let (mounted, at) = create-IsMounted m device made in
    let none_left : self.number_of_block_groups ≡ 0 =
      mounted.groups ∙ rw (mounted.superblock, at) (few _ _ small) in
    no_group m self 0 root_inode_index (omega arith)

module _ (m : Memory) (self : Fs) (g : ℕ) where
  -- The table of inodes: in a group with a superblock it is the one that the first descriptor of
  -- the block behind the superblock names; in another the third block of the group.
  abbrev pub HasTable : Ptr → Type 0
  HasTable t =
      (g < 2 ^ 16)
      × (g < self.number_of_block_groups)
      × (has_superblock g ≡ true
          → (d : Ptr) × (get_block m self (u32 (start_of m self g + 1)) ≡ some d)
            × (get_block m self (descriptor_at m d).inode_table ≡ some t))
      × (has_superblock g ≡ false
          → get_block m self (u32 (u32 (start_of m self g + 1) + 1)) ≡ some t)

  -- The inodes of a group lie one behind the other in its table.
  pub inode_in_group_lem :
      (i : ℕ) {t : Ptr} → HasTable t → inode_in_group m self g i ≡ ok (t + sizeof_inode * i)
  unfolding inode_in_group get_block_group group_with_superblock group_without_superblock
  inode_in_group_lem i (small, there, with_super, plain) =
      let e : u16 g ≡ g = omega arith in
      rw (e, lt→leb _ _ there)
        (elim (Bool-cases (has_superblock g)) [
          | inl s ↦ let (d, descriptor, table) = with_super s in rw s (rw (descriptor, table))
          | inr n ↦ rw n (rw (plain n))
        ])

-- Inode g * inodeper_group + i + 1, with i below inodeper_group and a number that fits 32 bits,
-- is the i-th inode of the table of group g, for a group that exists and whose table is found:
-- through the descriptor behind its superblock, or as its third block.
pub get_inode_lem :
    (m : Memory) (self : Fs) (g i : ℕ) {t : Ptr}
    → HasTable m self g t
    → i < (superblock_at m self.superblock).inodeper_group
    → g * (superblock_at m self.superblock).inodeper_group + i + 1 < 2 ^ 32
    → get_inode m self (g * (superblock_at m self.superblock).inodeper_group + i + 1)
      ≡ ok (t + sizeof_inode * i)
unfolding get_inode
get_inode_lem m self g i table inside fits =
    let ipg = (superblock_at m self.superblock).inodeper_group in
    let n : sub_u32 (g * ipg + i + 1) 1 ≡ g * ipg + i = omega arith in
    let (q, r) = split_index g i ipg inside in
    let pos : (ipg == 0) ≡ false = ground arith in
    let group : u16 g ≡ g = omega arith in
    rw (pos, n, q, r, group) (inode_in_group_lem m self g i table)

-- In a group with a superblock the table is looked up by the first descriptor.
inode_in_group-super :
    (m : Memory) (self : Fs) (g i : ℕ) {d : Ptr}
    → g < 2 ^ 16
    → g < self.number_of_block_groups
    → has_superblock g ≡ true
    → get_block m self (u32 (start_of m self g + 1)) ≡ some d
    → inode_in_group m self g i ≡ (
        deref (get_block m self (descriptor_at m d).inode_table) >>= λ t. ok (t + sizeof_inode * i))
unfolding inode_in_group get_block_group group_with_superblock
inode_in_group-super m self g i small there is_super descriptor =
    let e : u16 g ≡ g = omega arith in rw (e, lt→leb _ _ there, is_super) (rw descriptor)

-- Only the first descriptor of the block behind a superblock is read. So, in a group with a
-- superblock whose first descriptor names the same inode table as that of group 0, as in a copy
-- of the descriptor table, the inodes are those of group 0.
pub inode_in_group-copies :
    (m : Memory) (self : Fs) (g i : ℕ) {d d0 : Ptr}
    → g < 2 ^ 16
    → g < self.number_of_block_groups
    → has_superblock g ≡ true
    → get_block m self (u32 (start_of m self g + 1)) ≡ some d
    → get_block m self (u32 (start_of m self 0 + 1)) ≡ some d0
    → (descriptor_at m d).inode_table ≡ (descriptor_at m d0).inode_table
    → inode_in_group m self g i ≡ inode_in_group m self 0 i
inode_in_group-copies m self g i {d} {d0} small there is_super at_g at_0 copy =
    inode_in_group-super m self g i small there is_super at_g
    ∙ ap (λ b. deref (get_block m self b) >>= λ t. ok (t + sizeof_inode * i)) copy
    ∙ sym (
        inode_in_group-super m self 0 i (omega arith) (omega arith) (unfold has_superblock in refl)
          at_0)
