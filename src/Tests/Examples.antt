-- ===== src/Tests/Examples.antt =====
-- The theorems at the device of the tests.
use fuse_ext.Base.{
  ℕ, ◌+◌, ◌*◌, ◌≤◌, ◌<◌, ◌≡◌, ◌↔◌, ◌⊎◌, refl, ◌∙◌, true, false, some, List, [], ◌∷◌, length, map,
  Memory, arith, ok, fault, out_of_fuel, ◌>>=◌, if◌then◌else◌, ltb, ◌&&◌, ◌==◌, leb, ◌^◌,
}
use fuse_ext.Bitarray.{get_max_bit, test_bit, set_bit, clean_bit}
use fuse_ext.Bitarray.Laws.{test_bit-set_bit-clean_bit}
use fuse_ext.Strings.Split.{string_split}
use fuse_ext.Strings.Split.Laws.{fields, nonempty, string_split-fields}
use fuse_ext.Ext2.Layout.{inode_at, sizeof_inode}
use fuse_ext.Ext2.Geometry.{get_block, has_superblock}
use fuse_ext.Ext2.Groups.{get_root_inode, get_inode}
use fuse_ext.Ext2.Groups.Laws.{get_inode_lem}
use fuse_ext.Ext2.BlockMap.{get_inode_block_entry, find_block_entry}
use fuse_ext.Ext2.BlockMap.Laws.{get_inode_block_entry-indirect, get_inode_block_entry-any_inode}
use fuse_ext.Ext2.Directory.{find_inode, get_element_inode, slash}
use fuse_ext.Ext2.Directory.Paths.{Resolves, find_inode_iff, get_element_inode-fields}
use fuse_ext.Ext2.FreeBlocks.{get_free_blocks_in_group}
use fuse_ext.Ext2.Groups.Laws.{start_of}
use fuse_ext.Ext2.FreeBlocks.Laws.{
  used_bits, blocks_given, blocks_in_use, get_free_blocks_in_group-used,
}
use fuse_ext.Ext2.Data.{read_inode_data, write_inode_data}
use fuse_ext.Ext2.Data.Content.{contents}
use fuse_ext.Ext2.Data.Read.{direct_block, read_inode_data-direct}
use fuse_ext.Ext2.Data.Write.{write_inode_data-IsWritten}
use fuse_ext.Ext2.Data.Write.Loop.{IsWritten}
use fuse_ext.Client.{fuse_read, fuse_write}
use fuse_ext.Client.Laws.{quiet, fuse_read-fuse_write-error}
use fuse_ext.Tests.Disk.{
  disk, disk-IsBytes, fs, hello, buff, root_inode, hello_inode, hello-IsDirect, hello-IsWritable,
  no_clusters, bitmap, group,
}

abbrev hello_name : List ℕ
hello_name = b'h' ∷ b'e' ∷ b'l' ∷ b'l' ∷ b'o' ∷ []

abbrev hello_blocks : ℕ → ℕ
hello_blocks = direct_block disk fs hello_inode

read_example :
    read_inode_data disk fs hello_inode 1021 5 ≡ ok (contents disk 1024 hello_blocks 1021 5)
read_example =
    read_inode_data-direct disk fs hello_inode 1021 5 (omega arith) (omega arith)
      (hello-IsDirect 1026 (omega arith))

write_example :
    (after : Memory) × (write_inode_data no_clusters disk fs hello_inode buff 1022 ≡ ok after)
    × IsWritten 1024 hello_blocks buff 1022 1022 1026 disk after
write_example =
    write_inode_data-IsWritten no_clusters disk fs hello_inode buff 1022
      (hello-IsWritable 1022 1026 (omega arith)) (omega arith) (omega arith)

find_example :
    (find_inode disk fs root_inode (hello_name ∷ []) ≡ ok (some hello_inode))
    ↔ Resolves disk fs root_inode (hello_name ∷ []) hello_inode
find_example = find_inode_iff disk fs root_inode hello_inode (hello_name ∷ [])

element_example : get_element_inode disk fs hello ≡ (
    get_root_inode disk fs >>= λ root. find_inode disk fs root (nonempty (fields slash hello_name)))
element_example = get_element_inode-fields disk fs hello_name

split_example : string_split (b'/' ∷ hello) slash ≡ ok (nonempty (fields slash (b'/' ∷ hello)))
split_example = string_split-fields (b'/' ∷ hello) slash

indirect_example : get_inode_block_entry disk fs hello_inode 13 ≡ (
    if leb 13 12
    then find_block_entry disk fs ((inode_at disk hello_inode).block 12) 1 13
    else (if leb 13 (12 + 256)
        then find_block_entry disk fs ((inode_at disk hello_inode).block 13) 2 13
        else (if leb 13 (12 + 256 + 256 ^ 2)
            then find_block_entry disk fs ((inode_at disk hello_inode).block 14) 3 13
            else fault)))
indirect_example = get_inode_block_entry-indirect disk fs hello_inode 13 (omega arith)

any_inode_example :
    get_inode_block_entry disk fs hello_inode 13 ≡ get_inode_block_entry disk fs root_inode 13
any_inode_example = get_inode_block_entry-any_inode disk fs hello_inode root_inode 13 (omega arith)

inode_example : get_inode disk fs (0 * 16 + 11 + 1) ≡ ok (5120 + sizeof_inode * 11)
unfolding get_block has_superblock
inode_example =
    get_inode_lem disk fs 0 11 (omega arith, omega arith, λ s. (2048, refl, refl), λ n. cc)
      (omega arith) (omega arith)

used_example :
    (get_free_blocks_in_group disk fs (some group) 4 ≡ (
      if ltb 4 (length (blocks_given disk fs bitmap))
      then fault
      else ok (disk, blocks_given disk fs bitmap)))
    × (map (λ n. n + start_of disk fs 0) (blocks_given disk fs bitmap)
        ≡ map (λ n. n + 1) (blocks_in_use disk fs group bitmap))
used_example = get_free_blocks_in_group-used disk fs group 4 refl (λ e. omega arith) disk-IsBytes

used_run : get_free_blocks_in_group disk fs (some group) 4 ≡ ok (disk, 1 ∷ 3 ∷ [])
unfolding used_bits test_bit get_max_bit
used_run =
    (get_free_blocks_in_group-used disk fs group 4 refl (λ e. omega arith) disk-IsBytes).0 ∙ refl

error_example :
    ((fuse_read hello buff 0).1 (quiet 1 (some (record { bytes = []; error = true }) ∷ quiet 9 []))
      ≡ out_of_fuel)
    × ((fuse_write hello buff 0).1 (quiet 1 (some true ∷ quiet 9 [])) ≡ out_of_fuel)
error_example = fuse_read-fuse_write-error hello buff 0 1 9 []

bit_example :
    (test_bit (set_bit disk bitmap 4) bitmap 4
      ≡ (if ltb 4 (get_max_bit bitmap) && (4 == 4) then true else test_bit disk bitmap 4))
    × (test_bit (clean_bit disk bitmap 4) bitmap 4
        ≡ (if ltb 4 (get_max_bit bitmap) && (4 == 4) then false else test_bit disk bitmap 4))
    × ((3071 < 3072) ⊎ (3072 + 1 ≤ 3071)
        → (set_bit disk bitmap 4 3071 ≡ disk 3071) × (clean_bit disk bitmap 4 3071 ≡ disk 3071))
    × (set_bit disk bitmap 4 3071 < 256)
    × (clean_bit disk bitmap 4 3071 < 256)
bit_example = test_bit-set_bit-clean_bit disk bitmap 4 disk-IsBytes 4 3071
