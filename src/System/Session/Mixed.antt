-- ===== src/System/Session/Mixed.antt =====
-- A session of requests in any order, against the store of the files.
use fuse_ext.Base.{
  inl, inr, ◌⊎◌, ℕ, ◌+◌, ◌-◌, ◌^◌, ◌<◌, min, ◌≡◌, refl, ap, ◌∙◌, false, some, List, [], ◌∷◌, Ptr,
  arith, Memory, ok,
}
use fuse_ext.Rpc.{content}
use fuse_ext.Ext2.Layout.{inode_at}
use fuse_ext.Ext2.Geometry.{Fs}
use fuse_ext.Ext2.Groups.{get_root_inode}
use fuse_ext.Ext2.Directory.{InodeEntry, list_dir, get_element_inode}
use fuse_ext.Ext2.Directory.Kept.Lookup.{
  GroupsOn, IsListed, get_element_inode-IsPath, list_dir-IsListed,
}
use fuse_ext.Ext2.Resize.{Clusters}
use fuse_ext.Ext2.Data.Same.{IsSame}
use fuse_ext.Ext2.Data.Store.{IsLayout, Store, held, stored, IsInside}
use fuse_ext.Ext2.Data.Store.Step.{Holds, write-Holds, position_kept}
use fuse_ext.Ext2.Data.Store.Run.{contents-stored}
use fuse_ext.Server.{
  serve, serve_all, attributes_of, service_read_dir, service_get_attr, service_write, write_element,
}
use fuse_ext.Server.Laws.{service_read-contents}
use fuse_ext.System.Session.Paths.{AreClear, IsNamed}
use fuse_ext.System.Session.Answers.{
  Op, writes, reads, stats, lists, request, op_requests, answer, after_op, op_answers,
  attributes_kept,
}

module _ (clusters : Clusters) (fs : Fs) (F K : Ptr → Type 0) (start : Memory) (root : Ptr)
    (groups : GroupsOn start fs K) (at : get_root_inode start fs ≡ ok root) where
  -- An operation on one of the files, by a path that leads there: a write of at least one byte inside
  -- the file, a read of at least one byte from before its end, a getattr.
  abbrev pub IsOp : Op → Type 0
  IsOp (writes s) = IsNamed start fs K root s.path s.to.file × IsInside start F s.to
  IsOp (reads path p from n) =
      IsNamed start fs K root path p
      × F p
      × (0 < n)
      × (from < (inode_at start p).size)
      × (from + n < 2 ^ 32)
  IsOp (stats path p) = IsNamed start fs K root path p × (F p ⊎ ((i : ℕ) → i < 128 → K (p + i)))
  IsOp (lists path d) =
      IsNamed start fs K root path d × (es : List InodeEntry) × IsListed start fs K d es

  abbrev pub AreOps : List Op → Type 0
  AreOps [] = Unit {0}
  AreOps (o ∷ os) = IsOp o × AreOps os

  -- What stays true of the device in a session.
  pub record IsKept (m : Memory) (store : Store) : Type 0 where
    pub layout : IsLayout m fs F
    pub holds : Holds m fs F store
    pub clear : AreClear m fs F K
    pub agree : (a : Ptr) → K a → m a ≡ start a
    pub sizes : (p : Ptr) → F p → (inode_at m p).size ≡ (inode_at start p).size
    pub kept : (p : Ptr) → F p → attributes_of (inode_at m p) ≡ attributes_of (inode_at start p)

  module _ (m : Memory) (store : Store) (inv : IsKept m store) where
    found :
        (path : List ℕ) (p : Ptr)
        → IsNamed start fs K root path p
        → get_element_inode m fs path ≡ ok (some p)
    found path p (s, e, leads) =
        ap (get_element_inode m fs) e ∙ get_element_inode-IsPath inv.agree groups s at leads

    -- One operation: the answer is that of the store, and all stays true.
    pub step :
        (o : Op)
        → IsOp o
        → (after : Memory) × (serve clusters m fs (request o) ≡ ok (after, answer fs start store o))
          × IsKept after (after_op store o)
    unfolding serve service_read_dir service_get_attr service_write write_element
    step (writes s) (named, valid) =
        let valid' : IsInside m F s.to =
          (valid.0, valid.1, rw (inv.sizes s.to.file valid.0) valid.2) in
        let (next, run, sizes, layout, holds, same, untouched) =
          write-Holds clusters inv.layout s.to valid' store inv.holds in
        (
          next,
          rw (found s.path s.to.file named) (rw run refl),
          record {
            layout = layout;
            holds = holds;
            clear = λ a q ka g k lo hi e.
                let hi' : k < (inode_at m q).size = rw (← sizes q g) hi in
                inv.clear a q ka g k lo hi' (e ∙ position_kept inv.layout same q k g hi');
            agree = λ a ka. untouched a (inv.clear a s.to.file ka valid.0) ∙ inv.agree a ka;
            sizes = λ p f. sizes p f ∙ inv.sizes p f;
            kept = λ p f. attributes_kept m next fs p (same p f) ∙ inv.kept p f;
          },
        )
    step (reads path p from n) (named, f, some_bytes, inside, fits) =
        let size = inv.sizes p f in
        let inside' : from < (inode_at m p).size = rw size inside in
        let count = min n ((inode_at m p).size - from) in
        let served =
          service_read-contents m fs path (found path p named) from n inv.layout.pos some_bytes
            inside' fits (inv.layout.direct p f) in
        let bytes = contents-stored m fs F p f store inv.holds from count (omega arith) in
        (
          m,
          served
              ∙ ap (λ (bs : List ℕ). ok (m, content (record { bytes = bs; error = false })))
                  (bytes ∙ ap (λ (t : ℕ). stored store p from (min n (t - from))) size),
          inv,
        )
    step (stats path p) (named, inl f) = (m, rw (found path p named) (rw (inv.kept p f) refl), inv)
    step (stats path p) (named, inr inside) =
        let same : IsSame start m fs p = record {
          superblock = λ i h. inv.agree _ (groups.superblock i h);
          of_inode = λ i h. inv.agree _ (inside i h);
        } in
        (m, rw (found path p named) (rw (attributes_kept start m fs p same) refl), inv)
    step (lists path d) ((s, e, leads), es, there) =
        let listing = ap (list_dir m fs) e ∙ list_dir-IsListed inv.agree groups s at leads there in
        (m, rw listing (rw there.listed refl), inv)

  steps :
      (os : List Op) (m : Memory) (store : Store)
      → IsKept m store
      → AreOps os
      → (after : Memory) × (serve_all clusters m fs (op_requests os)
          ≡ ok (after, op_answers fs start store os))
  unfolding serve_all
  steps [] m store inv valid = (m, refl)
  steps (o ∷ os) m store inv (valid, others) =
      let (next, run, inv') = step m store inv o valid in
      let (after, rest) = steps os next (after_op store o) inv' others in
      (after, rw run (rw rest refl))

  -- At the start, the store is what the files hold.
  pub start-IsKept : IsLayout start fs F → AreClear start fs F K → IsKept start (held start fs)
  start-IsKept layout clear = record {
    layout = layout;
    holds = λ p k f h. refl;
    clear = clear;
    agree = λ a ka. refl;
    sizes = λ p f. refl;
    kept = λ p f. refl;
  }

  -- A session of any number of writes, reads, getattrs and readdirs, in any order, in requests by
  -- absolute path. The block size is not 0. All blocks of the files are direct ones, each with a
  -- number that is below 2^16 and that the superblock counts, and with an offset, number times
  -- block size, below 2^32; no block number stands twice, in one file or in two, and no byte of a
  -- file lies in the superblock, in one of their inodes or in any of the addresses K. In K lie the
  -- superblock, the descriptors of the groups, and the inodes of the directories on the paths, all
  -- of whose blocks are direct ones, with these blocks as `ext2_get_block` finds them, and with
  -- records that fit them; and 2 << log_block_size is not 0 in 32 bits. Each write is of at least
  -- one byte inside its file, each read is of at least one byte from before the end of its file,
  -- with an end that fits 32 bits, each getattr is of a file or of an inode in K, each readdir of a
  -- directory like those on the paths. Then the server answers every request without an error, as a
  -- store of the files does: a read gives, up to the end of the file, for each byte the one that
  -- the last write on it before the read wrote, or else the one that the device had at the start; a
  -- getattr gives what the inode held, and a readdir the names that the directory listed, at the
  -- start.
  pub serve_all-op_answers :
      (os : List Op)
      → AreOps os
      → IsLayout start fs F
      → AreClear start fs F K
      → (after : Memory) × (serve_all clusters start fs (op_requests os)
          ≡ ok (after, op_answers fs start (held start fs) os))
  serve_all-op_answers os valid layout clear =
      steps os start (held start fs) (start-IsKept layout clear) valid
