-- ===== src/System/Session/Answers.antt =====
-- The requests of a session and what a store of the files answers to them.
use fuse_ext.Base.{
  Option, Outcome, fault, out_of_fuel, ℕ, ◌+◌, ◌-◌, ◌<◌, min, ◌≡◌, refl, sym, ap, ap₂, ◌*◌, ◌∙◌,
  true, false, List, [], ◌∷◌, Ptr, if◌then◌else◌, bit_or, bit_and, ◌==◌, arith, Memory, ok,
  read32-same,
}
use fuse_ext.Rpc.{
  read_dir, entries, Request, read, write, get_attr, Response, content, written, attributes,
}
use fuse_ext.Ext2.Layout.{inode_at, has_mode_flag, ext2_ifdir}
use fuse_ext.Ext2.Geometry.{Fs}
use fuse_ext.Ext2.Directory.{InodeEntry, list_inode}
use fuse_ext.Ext2.Data.Same.{IsSame, same_size}
use fuse_ext.Ext2.Data.Store.{Store, stored, put}
use fuse_ext.Server.{attributes_of, names}
use fuse_ext.System.Session.{Sent}

-- A request by path, with the file that the path is meant for.
pub data Op : Type 0 where
  writes : Sent → Op
  -- the path, the file, the offset, the length
  reads : List ℕ → Ptr → ℕ → ℕ → Op
  stats : List ℕ → Ptr → Op
  lists : List ℕ → Ptr → Op

abbrev pub request : Op → Request
request (writes s) = write s.path s.to.offset s.to.buff
request (reads path p from n) = read path from n
request (stats path p) = get_attr path
request (lists path d) = read_dir path

abbrev pub op_requests : List Op → List Request
op_requests [] = []
op_requests (o ∷ os) = request o ∷ op_requests os

abbrev pub listed_names : Outcome (Option (List InodeEntry)) → List (List ℕ)
listed_names (ok es) = names es
listed_names fault = []
listed_names out_of_fuel = []

-- What the store answers: a read gives its bytes, no further than the end of the file, a getattr what
-- the inode held at the start, a readdir the names that the directory listed at the start.
abbrev pub answer : Fs → Memory → Store → Op → Response
answer fs start store (writes s) = written false
answer fs start store (reads path p from n) =
    content (record {
      bytes = stored store p from (min n ((inode_at start p).size - from));
      error = false;
    })
answer fs start store (stats path p) = attributes (attributes_of (inode_at start p))
answer fs start store (lists path d) = entries (listed_names (list_inode start fs d))

abbrev pub after_op : Store → Op → Store
after_op store (writes s) = put store s.to
after_op store (reads path p from n) = store
after_op store (stats path p) = store
after_op store (lists path d) = store

abbrev pub op_answers : Fs → Memory → Store → List Op → List Response
op_answers fs start store [] = []
op_answers fs start store (o ∷ os) =
    answer fs start store o ∷ op_answers fs start (after_op store o) os

module _ (m other : Memory) (self : Fs) (inode : Ptr) (same : IsSame m other self inode) where
  same_byte : (a i : ℕ) → a ≡ inode + i → i < 128 → other a ≡ m a
  same_byte a i at below = ap other at ∙ same.of_inode i below ∙ ap m (sym at)

  same_mode : (inode_at other inode).mode ≡ (inode_at m inode).mode
  same_mode =
      ap₂ (λ (x y : ℕ). x + 256 * y) (same_byte inode 0 (omega arith) (omega arith))
        (same_byte (inode + 1) 1 refl (omega arith))

  same_links : (inode_at other inode).links_count ≡ (inode_at m inode).links_count
  same_links =
      ap₂ (λ (x y : ℕ). x + 256 * y) (same_byte (inode + 26) 26 refl (omega arith))
        (same_byte (inode + 26 + 1) 27 (omega arith) (omega arith))

  same_blocks : (inode_at other inode).blocks ≡ (inode_at m inode).blocks
  same_blocks =
      read32-same other m (inode + 28)
        λ i h. same_byte (inode + 28 + i) (28 + i) (omega arith) (omega arith)

  pub attributes_kept : attributes_of (inode_at other inode) ≡ attributes_of (inode_at m inode)
  unfolding attributes_of has_mode_flag
  attributes_kept = λ i. record {
    fileexist = true;
    mode =
        if bit_and (same_mode i) 0xF000 == ext2_ifdir
        then bit_or 0o040000 0o444
        else bit_or (bit_or 0o100000 0o444) 0o222;
    nlinks = same_links i;
    blocks = same_blocks i;
    size = same_size same i;
  }
