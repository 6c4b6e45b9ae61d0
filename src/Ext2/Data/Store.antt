-- ===== src/Ext2/Data/Store.antt =====
-- Several files on a device as one store: each byte of each file by itself.
pub mod Step
pub mod Run
use fuse_ext.Base.{
  ℕ, zero, suc, ◌+◌, ◌-◌, ◌*◌, ◌≤◌, ◌<◌, ◌≡◌, ◌⊎◌, ◌==◌, Bool, ltb, leb, ◌&&◌, if◌then◌else◌, List,
  [], ◌∷◌, length, get_or, Ptr, Memory, Outcome, ok, ◌>>=◌,
}
use fuse_ext.Ext2.Layout.{inode_at}
use fuse_ext.Ext2.Geometry.{Fs}
use fuse_ext.Ext2.Resize.{Clusters}
use fuse_ext.Ext2.Data.{write_inode_data}
use fuse_ext.Ext2.Data.Content.{content}
use fuse_ext.Ext2.Data.Read.{IsDirect, direct_block}
use fuse_ext.Ext2.Data.Write.Loop.{IsElsewhere}

-- The files of these inodes lie in direct blocks as in `IsDirect`, with numbers below 2^16 that the
-- superblock counts and offsets below 2^32; no block is used twice, by one file or by two; and no
-- byte of a file lies in the superblock or in one of the inodes. The block size is not 0.
pub record IsLayout (m : Memory) (self : Fs) (F : Ptr → Type 0) : Type 0 where
  pub pos : 0 < self.block_size
  pub direct : (p : Ptr) → F p → IsDirect m self p (inode_at m p).size
  pub apart :
      (p q : Ptr) (b c : ℕ)
      → F p
      → F q
      → b * self.block_size < (inode_at m p).size
      → c * self.block_size < (inode_at m q).size
      → (inode_at m p).block b ≡ (inode_at m q).block c
      → (p ≡ q) × (b ≡ c)
  pub clear :
      (p q : Ptr) (a : Ptr)
      → F p
      → F q
      → ((self.superblock ≤ a) × (a < self.superblock + 204)) ⊎ ((q ≤ a) × (a < q + 128))
      → IsElsewhere self.block_size (direct_block m self p) 0 (inode_at m p).size a

-- What the store holds: byte k of the file of an inode.
abbrev pub Store : Type 0
Store = Ptr → ℕ → ℕ

abbrev pub held : Memory → Fs → Store
held m self p k = content m self.block_size (direct_block m self p) k

-- So many bytes of a file.
abbrev pub stored : Store → Ptr → ℕ → ℕ → List ℕ
stored store p k zero = []
stored store p k (suc n) = store p k ∷ stored store p (k + 1) n

-- A write of a buffer into a file from an offset on.
pub record Write : Type 0 where
  pub file : Ptr
  pub offset : ℕ
  pub buff : List ℕ

abbrev pub is_inside : Write → Ptr → ℕ → Bool
is_inside w p k = (p == w.file) && (leb w.offset k && ltb k (w.offset + length w.buff))

abbrev pub put : Store → Write → Store
put store w p k = if is_inside w p k then get_or w.buff (k - w.offset) 0 else store p k

abbrev pub put_all : Store → List Write → Store
put_all store [] = store
put_all store (w ∷ ws) = put_all (put store w) ws

-- At least one byte, inside a file of the store.
abbrev pub IsInside : Memory → (Ptr → Type 0) → Write → Type 0
IsInside m F w =
    F w.file × (0 < length w.buff) × (w.offset + length w.buff ≤ (inode_at m w.file).size)

abbrev pub AreInside : Memory → (Ptr → Type 0) → List Write → Type 0
AreInside m F [] = Unit {0}
AreInside m F (w ∷ ws) = IsInside m F w × AreInside m F ws

-- The writes one after the other.
unfoldable pub write_all : Clusters → Memory → Fs → List Write → Outcome Memory
write_all clusters m self [] = ok m
write_all clusters m self (w ∷ ws) =
    write_inode_data clusters m self w.file w.buff w.offset >>= λ after.
    write_all clusters after self ws
