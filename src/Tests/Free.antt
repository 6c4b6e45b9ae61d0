-- ===== src/Tests/Free.antt =====
-- The search for free blocks on a small device.
use fuse_ext.Base.{◌≡◌, refl, ◌∙◌, true, some, [], ◌∷◌, Memory, IsBytes, arith, ok}
use fuse_ext.Ext2.Geometry.{Fs}
use fuse_ext.Ext2.Groups.{BlockGroup, get_block_group}
use fuse_ext.Ext2.FreeBlocks.{get_free_blocks, get_free_blocks_in_group}
use fuse_ext.Ext2.Geometry.{has_superblock, get_block}
use fuse_ext.Bitarray.{test_bit, get_max_bit}
use fuse_ext.Ext2.FreeBlocks.Laws.{used_bits, get_free_blocks_in_group-used}
use fuse_ext.Ext2.FreeBlocks.Search.{IsFull, get_free_blocks-IsFull}
use fuse_ext.Tests.Disk.{from_table, from_table-IsBytes, fs}

-- A device of blocks of one byte, with a superblock, whose one group has its block bitmap in block 0.
abbrev tiny : Memory
tiny = from_table ((0, 0xa0) ∷ (1028, 16) ∷ (1044, 1) ∷ (1056, 15) ∷ (1112, 128) ∷ [])

abbrev tiny_fs : Fs
tiny_fs = record fs { block_size = 1 }

tiny-IsBytes : IsBytes tiny
tiny-IsBytes =
    from_table-IsBytes ((0, 0xa0) ∷ (1028, 16) ∷ (1044, 1) ∷ (1056, 15) ∷ (1112, 128) ∷ []) refl

abbrev tiny_group : BlockGroup
tiny_group = record {
  number = 0;
  first_block = 3;
  has_superblock = true;
  superblock = some 1;
  block_group_descriptor = some 2;
  block_bitmap = some (record { bitarray = 0; size = 1 });
  inode_bitmap = some (record { bitarray = 0; size = 1 });
  inodes_table = some 0;
}

tiny_found : get_block_group tiny tiny_fs 0 ≡ ok (some tiny_group)
unfolding get_block_group has_superblock get_block
tiny_found = refl

in_use : get_free_blocks_in_group tiny tiny_fs (some tiny_group) 2 ≡ ok (tiny, 1 ∷ 3 ∷ [])
unfolding used_bits test_bit get_max_bit
in_use =
    (get_free_blocks_in_group-used tiny tiny_fs tiny_group 2 refl (λ e. omega arith) tiny-IsBytes).0
    ∙ refl

tiny_run : get_free_blocks tiny tiny_fs (some tiny_group) 2 ≡ ok (tiny, some (1 ∷ 3 ∷ []))
unfolding get_free_blocks
tiny_run = rw in_use refl

search_example : (tiny ≡ tiny) × IsFull tiny tiny_fs 2 (some (1 ∷ 3 ∷ []))
search_example =
    get_free_blocks-IsFull tiny tiny_fs (λ e. omega arith) tiny-IsBytes 0 2 (some tiny_group)
      tiny_found tiny_run
