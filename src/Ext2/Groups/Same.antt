-- ===== src/Ext2/Groups/Same.antt =====
-- The inodes are found in the same places in two memories that agree on the superblock and on the
-- descriptors of the groups.
use fuse_ext.Base.{
  ℕ, ◌+◌, ◌*◌, ◌≤◌, ◌<◌, ◌≡◌, refl, sym, ap, ◌∙◌, true, false, Bool-cases, inl, inr, ◌==◌, leb,
  if◌then◌else◌, some, Option-cases, u16, u32, Memory, read32, read32-same, arith, ok, fault, ◌>>=◌,
  deref,
}
use native.Mathlib.Nat.{add_assoc}
use fuse_ext.Ext2.Layout.{superblock_at, descriptor_at}
use fuse_ext.Ext2.Geometry.{Fs, get_block, has_superblock}
use fuse_ext.Ext2.Groups.{
  get_block_group, group_with_superblock, group_without_superblock, inode_in_group, get_root_inode,
  get_inode,
}
use fuse_ext.Ext2.Groups.Laws.{start_of}

-- The two memories hold the same superblock, and the same descriptor behind each.
pub record SameGroups (m other : Memory) (self : Fs) : Type 0 where
  pub superblock : (i : ℕ) → i < 204 → other (self.superblock + i) ≡ m (self.superblock + i)
  pub descriptor :
      (g d i : ℕ)
      → g < self.number_of_block_groups
      → get_block m self (u32 (start_of m self g + 1)) ≡ some d
      → i < 32
      → other (d + i) ≡ m (d + i)

leb→gt : (a b : ℕ) → leb a b ≡ false → b < a
leb→gt a b h = ground arith

module _ {m other : Memory} {self : Fs} (same : SameGroups m other self) where
  pub same_field :
      (o : ℕ) → o + 4 ≤ 204 → read32 other (self.superblock + o) ≡ read32 m (self.superblock + o)
  same_field o inside = read32-same other m (self.superblock + o) λ i h.
      ap other (add_assoc self.superblock o i)
      ∙ same.superblock (o + i) (omega arith)
      ∙ ap m (sym (add_assoc self.superblock o i))

  pub same_get_block : (n : ℕ) → get_block other self n ≡ get_block m self n
  unfolding get_block
  same_get_block n = rw (same_field 4 (omega arith)) refl

  same_start : (g : ℕ) → start_of other self g ≡ start_of m self g
  same_start g = rw (same_field 32 (omega arith), same_field 20 (omega arith)) refl

  same_table :
      (g d : ℕ)
      → g < self.number_of_block_groups
      → get_block m self (u32 (start_of m self g + 1)) ≡ some d
      → (descriptor_at other d).inode_table ≡ (descriptor_at m d).inode_table
  same_table g d there at = read32-same other m (d + 8) λ i h.
      ap other (add_assoc d 8 i)
      ∙ same.descriptor g d (8 + i) there at (omega arith)
      ∙ ap m (sym (add_assoc d 8 i))

  in_group :
      (mem : Memory) (g i : ℕ)
      → leb self.number_of_block_groups (u16 g) ≡ false
      → has_superblock (u16 g) ≡ true
      → inode_in_group mem self g i ≡ (
          deref (get_block mem self (u32 (start_of mem self (u16 g) + 1))) >>= λ d.
          deref (get_block mem self (descriptor_at mem d).inode_table) >>= λ table.
          ok (table + 128 * i))
  unfolding inode_in_group get_block_group group_with_superblock
  in_group mem g i there super =
      elim (Option-cases (get_block mem self (u32 (start_of mem self (u16 g) + 1)))) [
        | inl e ↦ rw (there, super) (rw e refl)
        | inr (d, e) ↦ rw (there, super) (rw e refl)
      ]

  by_descriptor :
      (g i : ℕ)
      → g < self.number_of_block_groups
      → (deref (get_block m self (u32 (start_of m self g + 1))) >>= λ d.
          deref (get_block other self (descriptor_at other d).inode_table) >>= λ table.
          ok (table + 128 * i))
        ≡ (deref (get_block m self (u32 (start_of m self g + 1))) >>= λ d.
            deref (get_block m self (descriptor_at m d).inode_table) >>= λ table.
            ok (table + 128 * i))
  by_descriptor g i there = elim (Option-cases (get_block m self (u32 (start_of m self g + 1)))) [
    | inl e ↦ rw e refl
    | inr (d, e) ↦
        rw e (rw (same_table g d there e, same_get_block (descriptor_at m d).inode_table) refl)
  ]

  pub same_inode_in_group : (g i : ℕ) → inode_in_group other self g i ≡ inode_in_group m self g i
  same_inode_in_group g i = elim (Bool-cases (leb self.number_of_block_groups (u16 g))) [
    | inl past ↦ unfold inode_in_group get_block_group in rw past refl
    | inr there ↦ elim (Bool-cases (has_superblock (u16 g))) [
      | inl super ↦
          in_group other g i there super
          ∙ rw (same_start (u16 g), same_get_block (u32 (start_of m self (u16 g) + 1)))
              (by_descriptor (u16 g) i (leb→gt self.number_of_block_groups (u16 g) there))
          ∙ sym (in_group m g i there super)
      | inr plain ↦
          unfold inode_in_group get_block_group group_without_superblock in
          rw (there, plain)
            (rw (same_start (u16 g))
              (rw (same_get_block (u32 (u32 (start_of m self (u16 g) + 1) + 1))) refl))
    ]
  ]

  pub same_get_root_inode : get_root_inode other self ≡ get_root_inode m self
  unfolding get_root_inode
  same_get_root_inode = same_inode_in_group 0 1

  pub same_get_inode : (n : ℕ) → get_inode other self n ≡ get_inode m self n
  unfolding get_inode
  same_get_inode n = rw (same_field 40 (omega arith)) (
      ap (λ r. if (superblock_at m self.superblock).inodeper_group == 0 then fault else r)
        (same_inode_in_group _ _))
