-- ===== src/System/Session/Operations.antt =====
-- A session of FUSE operations of the client, sent to the server, gives what a store of the files gives.
use fuse_ext.Base.{
  read32_small, ℕ, ◌+◌, ◌^◌, ◌<◌, ◌≡◌, refl, ap, ap₂, ◌∙◌, false, List, [], ◌∷◌, length, u32, Ptr,
  arith, Memory, IsBytes, ok,
}
use fuse_ext.Rpc.{read, write}
use fuse_ext.Rpc.Structs.{Abi}
use fuse_ext.Rpc.Messages.Typed.{IsString, IsRequest}
use fuse_ext.Rpc.Library.{Library, IsLibrary}
use fuse_ext.Rpc.Service.Remote.{call-serve}
use fuse_ext.Ext2.Geometry.{Fs}
use fuse_ext.Ext2.Groups.{get_root_inode}
use fuse_ext.Ext2.Directory.Kept.Lookup.{GroupsOn}
use fuse_ext.Ext2.Resize.{Clusters}
use fuse_ext.Ext2.Data.Bytes.{AreBytes, KeepBytes}
use fuse_ext.Ext2.Data.Store.{IsLayout, Store, held}
use fuse_ext.Server.{serve}
use fuse_ext.Server.Bytes.{HasBytes, serve-IsBytes}
use fuse_ext.Client.{fuse_getattr, fuse_readdir, fuse_read, fuse_write}
use fuse_ext.System.Session.Paths.{AreClear}
use fuse_ext.System.Session.Answers.{lists, writes, reads, stats, request, answer, after_op}
use fuse_ext.System.Session.Mixed.{IsOp, IsKept, start-IsKept, step}
use fuse_ext.System.Session.Fuse.{
  FuseOp, writing, reading, getting, listing, op_of, query_of, operate, operate_all, result,
  results, resumed-answer,
}

module _ (abi : Abi) (lib : Library) (laws : IsLibrary abi lib) (clusters : Clusters)
    (keep : KeepBytes clusters) (fs : Fs) (F K : Ptr → Type 0) (start : Memory) (root : Ptr)
    (groups : GroupsOn start fs K) (at : get_root_inode start fs ≡ ok root)
    (start_bytes : IsBytes start) where
  -- An operation as in a session of the server, by a path without a NUL and with data of bytes.
  abbrev pub IsFuseOp : FuseOp → Type 0
  IsFuseOp (writing s) =
      IsOp clusters fs F K start root groups at (writes s) × IsString s.path × AreBytes s.to.buff
  IsFuseOp (reading path p from buf) =
      IsOp clusters fs F K start root groups at (reads path p from (length buf)) × IsString path
  IsFuseOp (getting path p stbuf) =
      IsOp clusters fs F K start root groups at (stats path p) × IsString path
  IsFuseOp (listing path d buf) =
      IsOp clusters fs F K start root groups at (lists path d) × IsString path

  abbrev pub AreFuseOps : List FuseOp → Type 0
  AreFuseOps [] = Unit {0}
  AreFuseOps (o ∷ os) = IsFuseOp o × AreFuseOps os

  -- The query is the request, which can be sent.
  sent :
      (o : FuseOp)
      → IsFuseOp o
      → (query_of o ≡ request (op_of o))
        × IsOp clusters fs F K start root groups at (op_of o)
        × IsRequest (query_of o)
        × HasBytes (query_of o)
  unfolding fuse_write fuse_read fuse_getattr fuse_readdir
  sent (writing s) (valid, path, data_bytes) =
      let bound = read32_small start (s.to.file + 4) start_bytes in
      let below : s.to.offset < 2 ^ 32 = omega (arith, valid.1.2) in
      let same : u32 s.to.offset ≡ s.to.offset = omega arith in
      (ap (λ (t : ℕ). write s.path t s.to.buff) same, valid, (path, omega arith), data_bytes)
  sent (reading path p from buf) (valid, name) =
      let fits = valid.4 in
      let offset : u32 from ≡ from = omega arith in
      let count : u32 (length buf) ≡ length buf = omega arith in
      (ap₂ (λ (t n : ℕ). read path t n) offset count, valid, (name, omega arith, omega arith), tt)
  sent (getting path p stbuf) (valid, name) = (refl, valid, name, tt)
  sent (listing path d buf) (valid, name) = (refl, valid, name, tt)

  one :
      (o : FuseOp) (m : Memory) (store : Store)
      → IsKept clusters fs F K start root groups at m store
      → IsBytes m
      → IsFuseOp o
      → (after : Memory) × (operate lib clusters fs false m o ≡ ok (after, result fs start store o))
        × IsKept clusters fs F K start root groups at after (after_op store (op_of o))
        × IsBytes after
  unfolding operate
  one o m store inv bytes valid =
      let (same, op, request_ok, data_bytes) = sent o valid in
      let (after, run, inv') = step clusters fs F K start root groups at m store inv (op_of o) op in
      let served : serve clusters m fs (query_of o) ≡ ok (after, answer fs start store (op_of o)) =
        ap (serve clusters m fs) same ∙ run in
      (
        after,
        rw (call-serve abi lib laws clusters fs m (query_of o) bytes request_ok)
            (rw served (rw (resumed-answer fs start store o) refl)),
        inv',
        serve-IsBytes clusters keep m fs bytes (query_of o) data_bytes served,
      )

  many :
      (os : List FuseOp) (m : Memory) (store : Store)
      → IsKept clusters fs F K start root groups at m store
      → IsBytes m
      → AreFuseOps os
      → (after : Memory) × (operate_all lib clusters fs false m os
          ≡ ok (after, results fs start store os))
  unfolding operate_all
  many [] m store inv bytes valid = (m, refl)
  many (o ∷ os) m store inv bytes (valid, others) =
      let (next, run, inv', bytes') = one o m store inv bytes valid in
      let (after, rest) = many os next (after_op store (op_of o)) inv' bytes' others in
      (after, rw run (rw rest refl))

  -- A session of any number of FUSE writes, reads, getattrs and readdirs of the client, in any
  -- order, by absolute paths without a NUL, each sent through its stub and the bytes of protobuf-c
  -- to the server, on a device of bytes. Let the RPC library do what is documented, let the
  -- functions for clusters keep a device of bytes one, and let the closure of a write find 0 behind
  -- the response. The block size is not 0. All blocks of the files are direct ones, each with a
  -- number that is below 2^16 and that the superblock counts, and with an offset, number times
  -- block size, below 2^32; no block number stands twice, in one file or in two, and no byte of a
  -- file lies in the superblock, in one of their inodes or in any of the addresses K. In K lie the
  -- superblock, the descriptors of the groups, and the inodes of the directories on the paths, all
  -- of whose blocks are direct ones, with these blocks as `ext2_get_block` finds them, and with
  -- records that fit them; and 2 << log_block_size is not 0 in 32 bits. Each write is of at least
  -- one byte inside its file, each read is of at least one byte from before the end of its file,
  -- with an end that fits 32 bits, each getattr is of a file or of an inode in K, each readdir of a
  -- directory like those on the paths. Then every operation returns, with the results of a store of
  -- the files: a write 0; a read the number of bytes up to the end of the file or of the buffer,
  -- with those bytes at the start of the buffer and the rest of it as before, each byte the one
  -- that the last write on it before the read wrote, or else the one that the device had at the
  -- start; a getattr 0 and what the inode held at the start; a readdir 0 and the names that the
  -- directory listed at the start.
  pub operate_all-results :
      (os : List FuseOp)
      → AreFuseOps os
      → IsLayout start fs F
      → AreClear start fs F K
      → (after : Memory) × (operate_all lib clusters fs false start os
          ≡ ok (after, results fs start (held start fs) os))
  operate_all-results os valid layout clear =
      many os start (held start fs) (start-IsKept clusters fs F K start root groups at layout clear)
        start_bytes valid
