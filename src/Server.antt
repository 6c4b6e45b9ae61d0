-- ===== src/Server.antt =====
-- fuse_ext2_server/src/ext2_server.c: the four services over the file system, and the start. A
-- handler returns the memory of the device after the call and the response that it hands to its
-- closure.
pub mod Laws
pub mod Main
pub mod Bytes
pub mod Started
use fuse_ext.Base.{
  ℕ, ◌+◌, ◌-◌, Bool, true, false, ◌==◌, ltb, if◌then◌else◌, Option, none, some, List, [], ◌∷◌, map,
  bit_or, u32, Ptr, Memory, Outcome, ok, fault, ◌>>=◌,
}
use fuse_ext.Rpc.{
  Request, read_dir, get_attr, read, write, GetAttrResponse, get_attr_init, ReadResponse, read_init,
  Response, entries, attributes, content, written,
}
use fuse_ext.Ext2.Layout.{Inode, inode_at, has_mode_flag, ext2_ifdir}
use fuse_ext.Ext2.Geometry.{Fs, create}
use fuse_ext.Ext2.Directory.{InodeEntry, c_string, get_element_inode, list_dir}
use fuse_ext.Ext2.Resize.{Clusters}
use fuse_ext.Ext2.Data.{read_inode_data, write_inode_data}

-- S_IFDIR and S_IFREG of sys/stat.h, FS_FULL_READ_PRIV and FS_FULL_WRITE_PRIV.
abbrev pub s_ifdir : ℕ
s_ifdir = 0o040000

abbrev pub s_ifreg : ℕ
s_ifreg = 0o100000

abbrev pub fs_full_read_priv : ℕ
fs_full_read_priv = 0o444

abbrev pub fs_full_write_priv : ℕ
fs_full_write_priv = 0o222

abbrev pub names : Option (List InodeEntry) → List (List ℕ)
names none = []
names (some elements) = map (λ (e : InodeEntry). c_string e.name) elements

unfoldable pub service_read_dir : Memory → Fs → List ℕ → Outcome (Memory × Response)
service_read_dir m fs path = do elements ← list_dir m fs path; ok (m, entries (names elements))

unfoldable pub attributes_of : Inode → GetAttrResponse
attributes_of element = record {
  fileexist = true;
  mode =
      if has_mode_flag element ext2_ifdir
      then bit_or s_ifdir fs_full_read_priv
      else bit_or (bit_or s_ifreg fs_full_read_priv) fs_full_write_priv;
  nlinks = element.links_count;
  blocks = element.blocks;
  size = element.size;
}

abbrev pub get_attr_response : Memory → Option Ptr → GetAttrResponse
get_attr_response m none = get_attr_init
get_attr_response m (some element) = attributes_of (inode_at m element)

unfoldable pub service_get_attr : Memory → Fs → List ℕ → Outcome (Memory × Response)
unfolding attributes_of
service_get_attr m fs path = do
  element ← get_element_inode m fs path
  ok (m, attributes (get_attr_response m element))

-- How much is read: the sum is one of 32 bits.
abbrev pub size_to_read : ℕ → ℕ → ℕ → ℕ
size_to_read size offset len = if ltb size (u32 (offset + len)) then size - offset else len

unfoldable pub read_element : Memory → Fs → Option Ptr → ℕ → ℕ → Outcome ReadResponse
read_element m fs none offset len = ok (record read_init { error = true })
read_element m fs (some element) offset len =
    let size = (inode_at m element).size in
    if ltb size offset then ok read_init else (do
      buff ← read_inode_data m fs element offset (size_to_read size offset len)
      ok (record read_init { bytes = buff }))

unfoldable pub service_read : Memory → Fs → List ℕ → ℕ → ℕ → Outcome (Memory × Response)
unfolding read_element
service_read m fs path offset len = do
  element ← get_element_inode m fs path
  response ← read_element m fs element offset len
  ok (m, content response)

module _ (clusters : Clusters) where
  unfoldable pub write_element : Memory → Fs → Option Ptr → ℕ → List ℕ → Outcome (Memory × Bool)
  write_element m fs none offset buff = ok (m, true)
  write_element m fs (some element) offset buff = do
    m' ← write_inode_data clusters m fs element buff offset
    ok (m', false)

  unfoldable pub service_write : Memory → Fs → List ℕ → ℕ → List ℕ → Outcome (Memory × Response)
  unfolding write_element
  service_write m fs path offset buff = do
    element ← get_element_inode m fs path
    r ← write_element m fs element offset buff
    ok (r.0, written r.1)

  -- The service that the RPC library calls for a request.
  unfoldable pub serve : Memory → Fs → Request → Outcome (Memory × Response)
  unfolding service_read_dir service_get_attr service_read service_write
  serve m fs (read_dir path) = service_read_dir m fs path
  serve m fs (get_attr path) = service_get_attr m fs path
  serve m fs (read path offset len) = service_read m fs path offset len
  serve m fs (write path offset buff) = service_write m fs path offset buff

  -- The requests one after the other, as the dispatch loop hands them over.
  unfoldable pub serve_all : Memory → Fs → List Request → Outcome (Memory × List Response)
  serve_all m fs [] = ok (m, [])
  serve_all m fs (r ∷ rs) = do
    first ← serve m fs r
    rest ← serve_all first.0 fs rs
    ok (rest.0, first.1 ∷ rest.1)

-- What the operating system answers at the start: the descriptor, the mode of the file, the mapped
-- memory; `none` is the failure of the call.
pub record Host : Type 0 where
  pub device_desc : Option ℕ
  pub st_mode : Option ℕ
  pub mapping : Option Memory

pub data Start : Type 0 where
  invalid_device_path invalid_device_descriptor not_a_file mmap_failed not_ext2 : Start
  running : Fs → Memory → Start

-- S_ISREG
abbrev pub is_regular : ℕ → Bool
is_regular mode = Prim.Native.Nat.bit_and mode 0o170000 == s_ifreg

abbrev pub mounted : Memory → Option Fs → Start
mounted m none = not_ext2
mounted m (some fs) = running fs m

unfoldable pub server_create : Host → Outcome Start
server_create host = elim host.device_desc [
  | none ↦ ok invalid_device_path
  | some fd ↦ elim host.st_mode [
    | none ↦ ok invalid_device_descriptor
    | some mode ↦
        if is_regular mode
        then elim host.mapping [
          | none ↦ ok mmap_failed
          | some m ↦ create m 0 >>= λ fs. ok (mounted m fs)
        ]
        else ok not_a_file
  ]
]
