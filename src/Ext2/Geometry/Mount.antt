-- ===== src/Ext2/Geometry/Mount.antt =====
-- Which devices `ext2_create` takes.
use fuse_ext.Base.{
  ℕ, ◌+◌, ◌*◌, ◌/◌, ◌^◌, ◌≡◌, sym, ap, ◌∙◌, ◌==◌, ne→==, false, some, u16, u32, sub_u32, Memory, ok,
}
use fuse_ext.Ext2.Layout.{superblock_at}
use fuse_ext.Ext2.Geometry.{
  Fs, get_block_size, get_inode_blocks_amount, get_number_of_block_group, create, ext2_super_magic,
}
use fuse_ext.Ext2.Geometry.Laws.{IsMounted, get_inode_blocks_amount_lem}

same_fs :
    (a b : Fs)
    → a.device ≡ b.device
    → a.superblock ≡ b.superblock
    → a.block_size ≡ b.block_size
    → a.inode_blocks_amount ≡ b.inode_blocks_amount
    → a.entries_per_block ≡ b.entries_per_block
    → a.number_of_block_groups ≡ b.number_of_block_groups
    → a ≡ b
same_fs a b p q r s t u = λ i. record {
  device = p i;
  superblock = q i;
  block_size = r i;
  inode_blocks_amount = s i;
  entries_per_block = t i;
  number_of_block_groups = u i;
}

-- A file system that is mounted at the start of the device is what `ext2_create` returns.
pub IsMounted-create :
    (m : Memory) (self : Fs) → IsMounted m self → self.device ≡ 0 → create m 0 ≡ ok (some self)
unfolding create get_block_size get_number_of_block_group
IsMounted-create m self h at_start =
    let at : self.superblock ≡ 1024 = h.superblock ∙ ap (λ (d : ℕ). d + 1024) at_start in
    let magic : (superblock_at m 1024).magic ≡ ext2_super_magic =
      ap (λ (t : ℕ). (superblock_at m t).magic) (sym at) ∙ h.magic in
    let size : self.block_size ≡ u32 (1024 * 2 ^ (superblock_at m 1024).log_block_size) =
      h.block_size ∙ ap (λ (t : ℕ). u32 (1024 * 2 ^ (superblock_at m t).log_block_size)) at in
    let some_blocks : ((superblock_at m 1024).blockper_group == 0) ≡ false =
      ne→== _ 0 (λ e. h.has_groups (ap (λ (t : ℕ). (superblock_at m t).blockper_group) at ∙ e)) in
    let groups : self.number_of_block_groups
        ≡ u16 (
            sub_u32 (superblock_at m 1024).blockcount (superblock_at m 1024).first_data_block
            / (superblock_at m 1024).blockper_group) =
      h.groups
      ∙ ap
          (λ (t : ℕ). u16 (
            sub_u32 (superblock_at m t).blockcount (superblock_at m t).first_data_block
            / (superblock_at m t).blockper_group))
          at in
    let entries : self.entries_per_block
        ≡ u32 (1024 * 2 ^ (superblock_at m 1024).log_block_size) / 4 =
      h.entries ∙ ap (λ (t : ℕ). t / 4) size in
    let blocks : self.inode_blocks_amount
        ≡ get_inode_blocks_amount (u32 (1024 * 2 ^ (superblock_at m 1024).log_block_size) / 4) =
      h.blocks
      ∙ ap (λ (e : ℕ). u32 (12 + e + e ^ 2 + e ^ 3)) entries
      ∙ sym (
          get_inode_blocks_amount_lem
            (u32 (1024 * 2 ^ (superblock_at m 1024).log_block_size) / 4)) in
    rw (magic, some_blocks)
      (ap (λ (s : Fs). ok (some s))
        (same_fs
          (record {
            device = 0;
            superblock = 1024;
            block_size = u32 (1024 * 2 ^ (superblock_at m 1024).log_block_size);
            inode_blocks_amount =
                get_inode_blocks_amount
                  (u32 (1024 * 2 ^ (superblock_at m 1024).log_block_size) / 4);
            entries_per_block = u32 (1024 * 2 ^ (superblock_at m 1024).log_block_size) / 4;
            number_of_block_groups = u16 (
                sub_u32 (superblock_at m 1024).blockcount (superblock_at m 1024).first_data_block
                / (superblock_at m 1024).blockper_group);
          })
          self (sym at_start) (sym at) (sym size) (sym blocks) (sym entries) (sym groups)))
