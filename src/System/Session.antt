-- ===== src/System/Session.antt =====
-- A session of a client: writes to several files, and a read.
pub mod Paths
pub mod Answers
pub mod Mixed
pub mod Fuse
pub mod Operations
use fuse_ext.Base.{
  ℕ, ◌+◌, ◌^◌, ◌≤◌, ◌<◌, ◌≡◌, refl, ap, ◌∙◌, false, some, List, [], ◌∷◌, ◌++◌, map, Ptr, Memory,
  arith, ok, le→ltb,
}
use fuse_ext.Rpc.{Request, read, write, Response, content, written}
use fuse_ext.Ext2.Layout.{inode_at}
use fuse_ext.Ext2.Geometry.{Fs}
use fuse_ext.Ext2.Directory.{get_element_inode}
use fuse_ext.Ext2.Resize.{Clusters}
use fuse_ext.Ext2.Data.{write_inode_data}
use fuse_ext.Ext2.Data.Read.{read_inode_data-direct}
use fuse_ext.Ext2.Data.Store.{IsLayout, Store, held, stored, Write, put, put_all, AreInside}
use fuse_ext.Ext2.Data.Store.Step.{Holds, write-Holds}
use fuse_ext.Ext2.Data.Store.Run.{contents-stored, AreInside-kept}
use fuse_ext.Server.{
  serve, serve_all, service_read, service_write, read_element, write_element, size_to_read,
}

-- A write by path.
pub record Sent : Type 0 where
  pub path : List ℕ
  pub to : Write

abbrev pub requests : List Sent → List Request
requests [] = []
requests (s ∷ ss) = write s.path s.to.offset s.to.buff ∷ requests ss

abbrev pub answers : List Sent → List Response
answers [] = []
answers (s ∷ ss) = written false ∷ answers ss

abbrev pub all_writes : List Sent → List Write
all_writes = map (λ s. s.to)

module _ (clusters : Clusters) (fs : Fs) (F : Ptr → Type 0) (path : List ℕ) (p : Ptr) where
  -- At its turn each path of a write leads to its file, and in the end the path of the read to its.
  abbrev pub AreFound : Memory → List Sent → Type 0
  AreFound m [] = get_element_inode m fs path ≡ ok (some p)
  AreFound m (s ∷ ss) =
      (get_element_inode m fs s.path ≡ ok (some s.to.file))
      × ((after : Memory)
          → write_inode_data clusters m fs s.to.file s.to.buff s.to.offset ≡ ok after
          → AreFound after ss)

  module _ (f : F p) (from n : ℕ) (some_bytes : 0 < n) where
    served :
        (ss : List Sent) (m : Memory) (store : Store)
        → IsLayout m fs F
        → Holds m fs F store
        → AreInside m F (all_writes ss)
        → AreFound m ss
        → from + n ≤ (inode_at m p).size
        → from + n < 2 ^ 32
        → (after : Memory) × (serve_all clusters m fs (requests ss ++ read path from n ∷ [])
            ≡ ok (
              after,
              answers ss
                  ++ content (record {
                    bytes = stored (put_all store (all_writes ss)) p from n;
                    error = false;
                  })
                    ∷ [],
            ))
    unfolding serve_all serve service_read service_write read_element write_element
    served [] m store layout holds valid found inside fits =
        let len : size_to_read (inode_at m p).size from n ≡ n = ground arith in
        let back =
          read_inode_data-direct m fs p from n layout.pos some_bytes
            (λ b below. layout.direct p f b (omega arith))
          ∙ ap ok (contents-stored m fs F p f store holds from n inside) in
        (m, rw found (rw (le→ltb (inode_at m p).size from (omega arith), len) (rw back refl)))
    served (s ∷ ss) m store layout holds valid found inside fits =
        let (next, run, sizes, layout', holds', _, _) =
          write-Holds clusters layout s.to valid.0 store holds in
        let inside' : from + n ≤ (inode_at next p).size = rw (sizes p f) inside in
        let (after, rest) =
          served ss next (put store s.to) layout' holds'
            (AreInside-kept m next F (all_writes ss) sizes valid.1) (found.1 next run) inside'
            fits in
        (after, rw (found.0) (rw run (rw rest refl)))

  -- A session of any number of writes to files, and then a read of at least one byte, in requests
  -- by path, on a device whose files are laid out as in `IsLayout`, in direct blocks with numbers
  -- below 2^16 and offsets below 2^32; each write is of at least one byte inside one of the files,
  -- the read is inside one of them with an end that fits 32 bits, and each path leads to its file
  -- when its turn comes: the server answers every write without an error, and the read with what
  -- the store of the files then holds: for each byte the one that the last write on it wrote, or
  -- else the one that the device had at the start.
  pub serve_all-stored :
      (m : Memory) (ss : List Sent) (from n : ℕ)
      → IsLayout m fs F
      → AreInside m F (all_writes ss)
      → AreFound m ss
      → F p
      → 0 < n
      → from + n ≤ (inode_at m p).size
      → from + n < 2 ^ 32
      → (after : Memory) × (serve_all clusters m fs (requests ss ++ read path from n ∷ [])
          ≡ ok (
            after,
            answers ss
                ++ content (record {
                  bytes = stored (put_all (held m fs) (all_writes ss)) p from n;
                  error = false;
                })
                  ∷ [],
          ))
  serve_all-stored m ss from n layout valid found f some_bytes inside fits =
      served f from n some_bytes ss m (held m fs) layout (λ q k g h. refl) valid found inside fits
