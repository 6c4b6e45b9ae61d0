-- ===== src/Ext2/Layout.antt =====
-- The packed structs of ext2.h, as they lie in the device (little-endian). A pointer to a struct
-- is its address, and a read of a field decodes the bytes that are there at that moment.
use fuse_ext.Base.{ℕ, ◌+◌, ◌*◌, List, Bool, ◌==◌, bit_and, Ptr, Memory, bytes_at, read16, read32}

-- t_ext2_superblock
pub record Superblock : Type 0 where
  pub inodecount : ℕ
  pub blockcount : ℕ
  pub r_blockcount : ℕ
  pub free_blockcount : ℕ
  pub free_inodecount : ℕ
  pub first_data_block : ℕ
  pub log_block_size : ℕ
  pub log_frag_size : ℕ
  pub blockper_group : ℕ
  pub fragper_group : ℕ
  pub inodeper_group : ℕ
  pub mtime : ℕ
  pub wtime : ℕ
  pub mnt_count : ℕ
  pub max_mnt_count : ℕ
  pub magic : ℕ
  pub state : ℕ
  pub errors : ℕ
  pub minor_rev_level : ℕ
  pub lastcheck : ℕ
  pub checkinterval : ℕ
  pub creator_os : ℕ
  pub rev_level : ℕ
  pub def_resuid : ℕ
  pub def_resgid : ℕ
  pub first_ino : ℕ
  pub inode_size : ℕ
  pub block_group_nr : ℕ
  pub feature_compat : ℕ
  pub feature_incompat : ℕ
  pub feature_ro_compat : ℕ
  pub uuid : List ℕ
  pub volume_name : List ℕ
  pub last_mounted : List ℕ
  pub algo_bitmap : ℕ

abbrev pub superblock_at : Memory → Ptr → Superblock
superblock_at m p = record {
  inodecount = read32 m p;
  blockcount = read32 m (p + 4);
  r_blockcount = read32 m (p + 8);
  free_blockcount = read32 m (p + 12);
  free_inodecount = read32 m (p + 16);
  first_data_block = read32 m (p + 20);
  log_block_size = read32 m (p + 24);
  log_frag_size = read32 m (p + 28);
  blockper_group = read32 m (p + 32);
  fragper_group = read32 m (p + 36);
  inodeper_group = read32 m (p + 40);
  mtime = read32 m (p + 44);
  wtime = read32 m (p + 48);
  mnt_count = read16 m (p + 52);
  max_mnt_count = read16 m (p + 54);
  magic = read16 m (p + 56);
  state = read16 m (p + 58);
  errors = read16 m (p + 60);
  minor_rev_level = read16 m (p + 62);
  lastcheck = read32 m (p + 64);
  checkinterval = read32 m (p + 68);
  creator_os = read32 m (p + 72);
  rev_level = read32 m (p + 76);
  def_resuid = read16 m (p + 80);
  def_resgid = read16 m (p + 82);
  first_ino = read32 m (p + 84);
  inode_size = read16 m (p + 88);
  block_group_nr = read16 m (p + 90);
  feature_compat = read32 m (p + 92);
  feature_incompat = read32 m (p + 96);
  feature_ro_compat = read32 m (p + 100);
  uuid = bytes_at m (p + 104) 16;
  volume_name = bytes_at m (p + 120) 16;
  last_mounted = bytes_at m (p + 136) 64;
  algo_bitmap = read32 m (p + 200);
}

-- t_ext2_block_group_descriptor, up to its padding.
pub record BlockGroupDescriptor : Type 0 where
  pub block_bitmap : ℕ
  pub inode_bitmap : ℕ
  pub inode_table : ℕ
  pub free_blocks_count : ℕ
  pub free_inodes_count : ℕ
  pub used_dirs_count : ℕ

abbrev pub descriptor_at : Memory → Ptr → BlockGroupDescriptor
descriptor_at m p = record {
  block_bitmap = read32 m p;
  inode_bitmap = read32 m (p + 4);
  inode_table = read32 m (p + 8);
  free_blocks_count = read16 m (p + 12);
  free_inodes_count = read16 m (p + 14);
  used_dirs_count = read16 m (p + 16);
}

-- t_ext2_inode; `block` is the array of 15 block numbers.
pub record Inode : Type 0 where
  pub mode : ℕ
  pub uid : ℕ
  pub size : ℕ
  pub atime : ℕ
  pub ctime : ℕ
  pub mtime : ℕ
  pub dtime : ℕ
  pub gid : ℕ
  pub links_count : ℕ
  pub blocks : ℕ
  pub flags : ℕ
  pub osd1 : ℕ
  pub block : ℕ → ℕ
  pub generation : ℕ
  pub file_acl : ℕ
  pub dir_acl : ℕ
  pub faddr : ℕ
  pub osd2 : List ℕ

-- sizeof(t_ext2_inode)
abbrev pub sizeof_inode : ℕ
sizeof_inode = 128

abbrev pub inode_at : Memory → Ptr → Inode
inode_at m p = record {
  mode = read16 m p;
  uid = read16 m (p + 2);
  size = read32 m (p + 4);
  atime = read32 m (p + 8);
  ctime = read32 m (p + 12);
  mtime = read32 m (p + 16);
  dtime = read32 m (p + 20);
  gid = read16 m (p + 24);
  links_count = read16 m (p + 26);
  blocks = read32 m (p + 28);
  flags = read32 m (p + 32);
  osd1 = read32 m (p + 36);
  block = λ i. read32 m (p + 40 + 4 * i);
  generation = read32 m (p + 100);
  file_acl = read32 m (p + 104);
  dir_acl = read32 m (p + 108);
  faddr = read32 m (p + 112);
  osd2 = bytes_at m (p + 116) 12;
}

-- EXT2_INODE_HAS_MODE_FLAG, and the two flags that the program tests.
unfoldable pub has_mode_flag : Inode → ℕ → Bool
has_mode_flag inode flag = bit_and inode.mode 0xF000 == flag

abbrev pub ext2_ifdir : ℕ
ext2_ifdir = 0x4000

abbrev pub ext2_ifreg : ℕ
ext2_ifreg = 0x8000

-- t_ext2_directory_entry; the name is the `name_len` bytes behind the header.
pub record DirectoryEntry : Type 0 where
  pub inode : ℕ
  pub rec_len : ℕ
  pub name_len : ℕ
  pub file_type : ℕ
  pub name : List ℕ

abbrev pub directory_entry_at : Memory → Ptr → DirectoryEntry
directory_entry_at m p = record {
  inode = read32 m p;
  rec_len = read16 m (p + 4);
  name_len = m (p + 6);
  file_type = m (p + 7);
  name = bytes_at m (p + 8) (m (p + 6));
}
