-- ===== src/System/Write.antt =====
-- A FUSE write and then a FUSE read of the same bytes, through the server.
use fuse_ext.Base.{
  ℕ, ◌+◌, ◌^◌, ◌≤◌, ◌<◌, ◌≡◌, refl, sym, Bool, ap, ◌∙◌, false, some, Option, List, [], ◌∷◌, ◌++◌,
  append-nil, length, drop, u32, Ptr, Memory, arith, ok, le→ltb,
}
use fuse_ext.Base.Int.{pos}
use fuse_ext.Rpc.{ReadResponse, content, written}
use fuse_ext.Ext2.Layout.{inode_at}
use fuse_ext.Ext2.Geometry.{Fs}
use fuse_ext.Ext2.Directory.{get_element_inode}
use fuse_ext.Ext2.Resize.{Clusters}
use fuse_ext.Ext2.Data.{write_inode_data}
use fuse_ext.Ext2.Data.Write.Stretch.{IsWritable}
use fuse_ext.Ext2.Data.Write.{read_inode_data-write_inode_data}
use fuse_ext.Server.{serve, service_read, service_write, read_element, write_element, size_to_read}
use fuse_ext.Client.{fuse_read, fuse_write}
use fuse_ext.Client.Laws.{quiet, fuse_read-response, fuse_write-response}

drop_all : (xs ys : List ℕ) → length xs ≡ length ys → drop (length xs) ys ≡ []
drop_all [] [] h = refl
drop_all [] (y ∷ ys) h = absurd (omega arith)
drop_all (x ∷ xs) [] h = absurd (omega arith)
drop_all (x ∷ xs) (y ∷ ys) h = drop_all xs ys (omega arith)

module _ (clusters : Clusters) (m : Memory) (fs : Fs) (path buff out : List ℕ) (offset n k : ℕ)
    (runs_write : List (Option Bool)) (runs_read : List (Option ReadResponse)) {p : Ptr}
    (writable : IsWritable m fs p offset (offset + length buff)) (some_bytes : 0 < length buff)
    (long : offset + length buff ≤ (inode_at m p).size) (fits : offset + length buff < 2 ^ 32)
    (room : length out ≡ length buff) (found : get_element_inode m fs path ≡ ok (some p))
    (still : (after : Memory)
      → write_inode_data clusters m fs p buff offset ≡ ok after
      → get_element_inode after fs path ≡ ok (some p)) where
  -- A FUSE write of at least one byte inside the size of a file, on a device whose block size is
  -- not 0, when all blocks of the file up to the end of the stretch are direct ones, each with a
  -- number that is below 2^16 and that the superblock counts, and with an offset, number times
  -- block size, below 2^32, no two of these have the same number, and no byte of the stretch lies
  -- in the superblock or the inode; and then a FUSE read into a buffer of the same length, if the
  -- end of the stretch fits 32 bits and the path leads to the same file after the write: the server
  -- answers both, and both return, the write 0 if its closure finds 0 in the memory behind the
  -- response, and the read the number of bytes, with the bytes that were written in its buffer.
  pub fuse_write-fuse_read :
      (after : Memory) × (answer : ReadResponse) × (serve clusters m fs
          (fuse_write path buff offset).0
        ≡ ok (after, written false))
      × ((fuse_write path buff offset).1 (quiet n (some false ∷ runs_write)) ≡ ok (pos 0, tt))
      × (serve clusters after fs (fuse_read path out offset).0 ≡ ok (after, content answer))
      × ((fuse_read path out offset).1 (quiet k (some answer ∷ runs_read))
          ≡ ok (pos (length buff), buff))
  unfolding serve fuse_write fuse_read service_write service_read read_element write_element
  fuse_write-fuse_read =
      let (after, run, back, size) =
        read_inode_data-write_inode_data clusters m fs p buff offset writable some_bytes long in
      let at : u32 offset ≡ offset = omega arith in
      let len : u32 (length out) ≡ length buff = omega arith in
      let sized : size_to_read (inode_at after p).size offset (length buff) ≡ length buff =
        ground arith in
      (
        after,
        record { bytes = buff; error = false },
        rw at (rw found (rw run)),
        fuse_write-response path buff offset n runs_write,
        rw (at, len)
            (rw (still after run)
              (rw (le→ltb (inode_at after p).size offset (omega arith), sized) (rw back))),
        fuse_read-response path out offset k buff runs_read (omega arith)
            ∙ ap (λ (rest : List ℕ). ok (pos (length buff), buff ++ rest))
                (drop_all buff out (sym room))
            ∙ ap (λ (bytes : List ℕ). ok (pos (length buff), bytes)) (append-nil buff),
      )
