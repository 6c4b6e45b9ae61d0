-- ===== src/System/Session/Paths.antt =====
-- A session whose files lie apart from the directories: every path keeps its file.
use fuse_ext.Base.{
  ℕ, ◌+◌, ◌^◌, ◌≤◌, ◌<◌, ◌≡◌, refl, sym, subst, ap, ◌∙◌, false, some, List, [], ◌∷◌, ◌++◌, Ptr,
  Memory, ok, ok-injective,
}
use fuse_ext.Strings.Split.Laws.{fields, nonempty}
use fuse_ext.Rpc.{read, content}
use fuse_ext.Ext2.Layout.{inode_at}
use fuse_ext.Ext2.Geometry.{Fs}
use fuse_ext.Ext2.Groups.{get_root_inode}
use fuse_ext.Ext2.Directory.{get_element_inode, slash}
use fuse_ext.Ext2.Directory.Kept.Lookup.{GroupsOn, IsPath, get_element_inode-IsPath}
use fuse_ext.Ext2.Resize.{Clusters}
use fuse_ext.Ext2.Data.Read.{direct_block}
use fuse_ext.Ext2.Data.Write.Loop.{IsElsewhere}
use fuse_ext.Ext2.Data.Store.{IsLayout, held, stored, put_all, AreInside}
use fuse_ext.Ext2.Data.Store.Step.{write-Holds, position_kept}
use fuse_ext.Ext2.Data.Store.Run.{AreInside-kept}
use fuse_ext.Server.{serve_all}
use fuse_ext.System.Session.{Sent, requests, answers, all_writes, AreFound, serve_all-stored}

-- None of the addresses lies in one of the files.
abbrev pub AreClear : Memory → Fs → (Ptr → Type 0) → (Ptr → Type 0) → Type 0
AreClear m self F K =
    (a q : Ptr)
    → K a
    → F q
    → IsElsewhere self.block_size (direct_block m self q) 0 (inode_at m q).size a

module _ (m : Memory) (fs : Fs) (K : Ptr → Type 0) (root : Ptr) where
  -- The path starts at the root and leads to the file, through directories in these addresses.
  abbrev pub IsNamed : List ℕ → Ptr → Type 0
  IsNamed path file =
      (s : List ℕ) × (path ≡ b'/' ∷ s) × IsPath m fs K root (nonempty (fields slash s)) file

  abbrev pub AreNamed : List Sent → Type 0
  AreNamed [] = Unit {0}
  AreNamed (s ∷ ss) = IsNamed s.path s.to.file × AreNamed ss

module _ (clusters : Clusters) (fs : Fs) (F K : Ptr → Type 0) (start : Memory) (root : Ptr)
    (groups : GroupsOn start fs K) (at : get_root_inode start fs ≡ ok root) where
  named_found :
      (m : Memory) (path : List ℕ) (file : Ptr)
      → ((a : Ptr) → K a → m a ≡ start a)
      → IsNamed start fs K root path file
      → get_element_inode m fs path ≡ ok (some file)
  named_found m path file agree (s, e, leads) =
      ap (get_element_inode m fs) e ∙ get_element_inode-IsPath agree groups s at leads

  all_found :
      (path : List ℕ) (p : Ptr) (ss : List Sent) (m : Memory)
      → IsNamed start fs K root path p
      → AreNamed start fs K root ss
      → IsLayout m fs F
      → AreInside m F (all_writes ss)
      → AreClear m fs F K
      → ((a : Ptr) → K a → m a ≡ start a)
      → AreFound clusters fs F path p m ss
  all_found path p [] m named others layout valid clear agree = named_found m path p agree named
  all_found path p (s ∷ ss) m named others layout valid clear agree = (
    named_found m s.path s.to.file agree others.0,
    λ after run.
        let (next, run', sizes, layout', _, same, untouched) =
          write-Holds clusters layout s.to valid.0 (held m fs) (λ q k g h. refl) in
        let rest : AreFound clusters fs F path p next ss =
          all_found path p ss next named others.1 layout'
            (AreInside-kept m next F (all_writes ss) sizes valid.1)
            (λ a q ka g k lo hi e.
              let hi' : k < (inode_at m q).size = rw (← sizes q g) hi in
              clear a q ka g k lo hi' (e ∙ position_kept layout same q k g hi'))
            (λ a ka. untouched a (clear a s.to.file ka valid.0.0) ∙ agree a ka) in
        subst (λ t. AreFound clusters fs F path p t ss) (ok-injective (sym run' ∙ run)) rest,
  )

  -- A session of any number of writes to files, and then a read of at least one byte, in requests
  -- by absolute path. The block size is not 0. All blocks of the files are direct ones, each with a
  -- number that is below 2^16 and that the superblock counts, and with an offset, number times
  -- block size, below 2^32; no block number stands twice, in one file or in two, and no byte of a
  -- file lies in the superblock, in one of their inodes or in any of the addresses K. In K lie the
  -- superblock, the descriptors of the groups, and the inodes of the directories on the paths, all
  -- of whose blocks are direct ones, with these blocks as `ext2_get_block` finds them, and with
  -- records that fit them; and 2 << log_block_size is not 0 in 32 bits. Each write is of at least
  -- one byte inside its file, the read is inside its file, with an end that fits 32 bits. Then the
  -- server answers every write without an error, and the read with what the store of the files
  -- holds in the end: for each byte the one that the last write on it wrote, or else the one that
  -- the device had at the start.
  pub serve_all-IsNamed :
      (path : List ℕ) (p : Ptr) (ss : List Sent) (from n : ℕ)
      → IsNamed start fs K root path p
      → AreNamed start fs K root ss
      → IsLayout start fs F
      → AreInside start F (all_writes ss)
      → AreClear start fs F K
      → F p
      → 0 < n
      → from + n ≤ (inode_at start p).size
      → from + n < 2 ^ 32
      → (after : Memory) × (serve_all clusters start fs (requests ss ++ read path from n ∷ [])
          ≡ ok (
            after,
            answers ss
                ++ content (record {
                  bytes = stored (put_all (held start fs) (all_writes ss)) p from n;
                  error = false;
                })
                  ∷ [],
          ))
  serve_all-IsNamed path p ss from n named others layout valid clear f some_bytes inside fits =
      serve_all-stored clusters fs F path p start ss from n layout valid
        (all_found path p ss start named others layout valid clear (λ a ka. refl)) f some_bytes
        inside fits
