-- ===== src/Server/Laws.antt =====
-- What the services answer.
use fuse_ext.Base.{
  ℕ, ◌+◌, ◌-◌, ◌^◌, ◌≤◌, ◌<◌, min, ◌≡◌, false, some, List, [], ◌∷◌, ◌++◌, length, Ptr, Memory,
  arith, ok, fault, le→ltb, lt→ltb,
}
use fuse_ext.Rpc.{read, write, content, written}
use fuse_ext.Strings.Split.Laws.{fields, nonempty}
use fuse_ext.Ext2.Layout.{inode_at, has_mode_flag, ext2_ifdir}
use fuse_ext.Ext2.Geometry.{Fs}
use fuse_ext.Ext2.Groups.{get_root_inode}
use fuse_ext.Ext2.Directory.{get_element_inode, slash}
use fuse_ext.Ext2.Directory.Paths.{Resolves, find_inode-through_file, get_element_inode-fields}
use fuse_ext.Ext2.Resize.{Clusters}
use fuse_ext.Ext2.Data.{write_inode_data}
use fuse_ext.Ext2.Data.Content.{contents}
use fuse_ext.Ext2.Data.Read.{IsDirect, direct_block, read_inode_data-direct}
use fuse_ext.Ext2.Data.Write.Stretch.{IsWritable}
use fuse_ext.Ext2.Data.Write.{read_inode_data-write_inode_data}
use fuse_ext.Server.{
  size_to_read, read_element, service_read, service_get_attr, serve, serve_all, write_element,
  service_write,
}

-- The size of a read is what is left of the file, at most what was asked for, as long as the end of
-- the request fits 32 bits.
pub size_to_read-min :
    (size offset len : ℕ)
    → offset ≤ size
    → offset + len < 2 ^ 32
    → size_to_read size offset len ≡ min len (size - offset)
size_to_read-min size offset len inside fits = ground arith

-- From an offset inside the file, when the end of the request does not fit 32 bits and its
-- wrapped value is not past the end of the file, the whole length is read, which is more than
-- what is left of the file.
pub size_to_read-wraps :
    (size offset len : ℕ)
    → offset ≤ size
    → size < 2 ^ 32
    → 2 ^ 32 ≤ offset + len
    → offset + len ≤ 2 ^ 32 + size
    → (size_to_read size offset len ≡ len) × (size - offset < len)
size_to_read-wraps size offset len inside small big wrapped = (ground arith, omega arith)

module _ (m : Memory) (fs : Fs) (path : List ℕ) {p : Ptr}
    (found : get_element_inode m fs path ≡ ok (some p)) where
  -- A read of at least one byte of a file that was found and whose whole size lies in direct
  -- blocks, from before its end, where the end of the request fits 32 bits: the answer has no
  -- error, and holds the bytes from the offset on, as many as were asked for and at most up to
  -- the end of the file. The device is not changed.
  pub service_read-contents :
      (offset len : ℕ)
      → 0 < fs.block_size
      → 0 < len
      → offset < (inode_at m p).size
      → offset + len < 2 ^ 32
      → IsDirect m fs p (inode_at m p).size
      → service_read m fs path offset len
        ≡ ok (
          m,
          content (record {
            bytes =
                contents m fs.block_size
                  (direct_block m fs p)
                  offset
                  (min len ((inode_at m p).size - offset));
            error = false;
          }),
        )
  unfolding service_read read_element
  service_read-contents offset len pos some_bytes inside fits direct =
      let size = (inode_at m p).size in
      let n = min len (size - offset) in
      let within : IsDirect m fs p (offset + n) = λ b below. direct b (omega arith) in
      rw found (
        rw (le→ltb size offset (omega arith), size_to_read-min size offset len (omega arith) fits)
          (rw (read_inode_data-direct m fs p offset n pos (omega arith) within)))

  -- A read from behind the end of the file gives no bytes and no error.
  pub service_read-behind :
      (offset len : ℕ)
      → (inode_at m p).size < offset
      → service_read m fs path offset len ≡ ok (m, content (record { bytes = []; error = false }))
  unfolding service_read read_element
  service_read-behind offset len past = rw found (rw (lt→ltb (inode_at m p).size offset past))

-- A request for the attributes of a path that goes on behind an inode that is no directory
-- faults: the server stops instead of answering that there is no such file.
pub service_get_attr-through_file :
    (m : Memory) (fs : Fs) (s : List ℕ) {root t : Ptr} (p q : List (List ℕ)) (name : List ℕ)
    → get_root_inode m fs ≡ ok root
    → Resolves m fs root p t
    → has_mode_flag (inode_at m t) ext2_ifdir ≡ false
    → nonempty (fields slash s) ≡ p ++ name ∷ q
    → service_get_attr m fs (b'/' ∷ s) ≡ fault
unfolding service_get_attr
service_get_attr-through_file m fs s {root} {t} p q name at leads file names =
    rw (get_element_inode-fields m fs s, at)
      (rw (names, find_inode-through_file m fs root t p q name leads file))

module _ (clusters : Clusters) (m : Memory) (fs : Fs) (path buff : List ℕ) (offset : ℕ) {p : Ptr}
    (writable : IsWritable m fs p offset (offset + length buff)) (some_bytes : 0 < length buff)
    (long : offset + length buff ≤ (inode_at m p).size)
    (found : get_element_inode m fs path ≡ ok (some p)) where
  -- A client that writes at least one byte inside the size of a file, where the stretch is writable
  -- as in `IsWritable`, in direct blocks with numbers below 2^16 and offsets below 2^32, and then
  -- reads the same stretch gets back what it wrote, if the end of the stretch fits 32 bits and the
  -- path leads to the same file after the write.
  pub serve_all-write_read :
      (fits : offset + length buff < 2 ^ 32)
      → ((after : Memory)
          → write_inode_data clusters m fs p buff offset ≡ ok after
          → get_element_inode after fs path ≡ ok (some p))
      → (after : Memory) × (serve_all clusters m fs
            (write path offset buff ∷ read path offset (length buff) ∷ [])
          ≡ ok (after, written false ∷ content (record { bytes = buff; error = false }) ∷ []))
  unfolding serve_all serve service_write service_read read_element write_element
  serve_all-write_read fits still =
      let (after, run, back, size) =
        read_inode_data-write_inode_data clusters m fs p buff offset writable some_bytes long in
      let len : size_to_read (inode_at after p).size offset (length buff) ≡ length buff =
        ground arith in
      (
        after,
        rw found (
            rw run (
              rw (still after run)
                (rw (le→ltb (inode_at after p).size offset (omega arith), len) (rw back)))),
      )
