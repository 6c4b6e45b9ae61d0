-- ===== src/System.antt =====
-- Client and server together: a request of the client, the service's answer, the client's result.
pub mod Getattr
pub mod Readdir
pub mod Write
pub mod Session
use fuse_ext.Base.{
  ℕ, ◌+◌, ◌-◌, ◌^◌, ◌<◌, min, ◌≡◌, ap, ap₂, ◌∙◌, some, Option, List, ◌∷◌, ◌++◌, length, drop, u32,
  Ptr, Memory, arith, ok, false,
}
use fuse_ext.Base.Int.{pos}
use fuse_ext.Rpc.{read, ReadResponse, content}
use fuse_ext.Ext2.Layout.{inode_at}
use fuse_ext.Ext2.Geometry.{Fs}
use fuse_ext.Ext2.Directory.{get_element_inode}
use fuse_ext.Ext2.Resize.{Clusters}
use fuse_ext.Ext2.Data.Content.{contents, length-contents}
use fuse_ext.Ext2.Data.Read.{IsDirect, direct_block}
use fuse_ext.Server.{serve}
use fuse_ext.Server.Laws.{service_read-contents}
use fuse_ext.Client.{fuse_read}
use fuse_ext.Client.Laws.{quiet, fuse_read-response}

-- A FUSE read of a file that the path finds, on a device whose block size is not 0, when all blocks
-- of the file up to its size are direct ones, each with a number that is below 2^16 and that the
-- superblock counts, and with an offset, number times block size, below 2^32, from before its end,
-- with room for at least one byte and an end that fits 32 bits: the server's answer to the request
-- reaches the client, whatever runs of its dispatch loop bring nothing first. The result is the
-- number of bytes from the offset to the end of the buffer or of the file; these bytes of the file
-- stand at the start of the buffer, and the rest is as before.
pub fuse_read-serve :
    (clusters : Clusters) (m : Memory) (fs : Fs) (path buf : List ℕ) (offset n : ℕ)
    (runs : List (Option ReadResponse)) {p : Ptr}
    → get_element_inode m fs path ≡ ok (some p)
    → 0 < fs.block_size
    → 0 < length buf
    → offset < (inode_at m p).size
    → offset + length buf < 2 ^ 32
    → IsDirect m fs p (inode_at m p).size
    → let count = min (length buf) ((inode_at m p).size - offset) in
      let bytes = contents m fs.block_size (direct_block m fs p) offset count in
      (answer : ReadResponse) × (serve clusters m fs (fuse_read path buf offset).0
        ≡ ok (m, content answer))
      × ((fuse_read path buf offset).1 (quiet n (some answer ∷ runs))
          ≡ ok (pos count, bytes ++ drop count buf))
unfolding serve fuse_read
fuse_read-serve clusters m fs path buf offset n runs {p} found pos_size room inside fits direct =
    let count = min (length buf) ((inode_at m p).size - offset) in
    let bytes = contents m fs.block_size (direct_block m fs p) offset count in
    let len : length bytes ≡ count =
      length-contents m fs.block_size (direct_block m fs p) offset count in
    let off : u32 offset ≡ offset = omega arith in
    let size : u32 (length buf) ≡ length buf = omega arith in
    let request = ap₂ (λ (o l : ℕ). serve clusters m fs (read path o l)) off size in
    let served =
      service_read-contents m fs path found offset (length buf) pos_size room inside fits direct in
    (
      record { bytes = bytes; error = false },
      request ∙ served,
      fuse_read-response path buf offset n bytes runs (omega arith)
          ∙ ap (λ (t : ℕ). ok (pos t, bytes ++ drop t buf)) len,
    )
