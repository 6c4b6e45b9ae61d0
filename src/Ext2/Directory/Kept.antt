-- ===== src/Ext2/Directory/Kept.antt =====
-- Directories in two memories that agree on them.
pub mod Lookup
use fuse_ext.Base.{
  ℕ, zero, suc, ◌+◌, ◌*◌, ◌/◌, ◌^◌, ◌≤◌, ◌<◌, ◌≡◌, ◌≢◌, refl, sym, subst, ap, ap₂, ◌∙◌, true, ◌==◌,
  if◌then◌else◌, some, List, [], ◌∷◌, ◌++◌, u32, Ptr, Memory, read16, read32, read32-same, bytes_at,
  arith, Outcome, ok, ◌>>=◌,
}
use native.Mathlib.Nat.{add_assoc}
use fuse_ext.Ext2.Layout.{
  superblock_at, inode_at, has_mode_flag, ext2_ifdir, DirectoryEntry, directory_entry_at,
}
use fuse_ext.Ext2.Geometry.{Fs, get_block}
use fuse_ext.Ext2.BlockMap.Laws.{get_inode_block_entry-direct}
use fuse_ext.Ext2.Groups.Same.{SameGroups, same_field, same_get_block, same_get_inode}
use fuse_ext.Ext2.Directory.{InodeEntry, inode_entry_create, list_inode}
use fuse_ext.Ext2.Directory.Entries.{Chain, stop, next, create_used}
use fuse_ext.Ext2.Directory.Listing.{Blocks, done, hole, block, list_inode-Blocks}

-- The records of a block, as in `Chain`, each of which holds its name and ends inside the block.
pub data FitChain (m : Memory) (self : Fs) (b : Ptr) : ℕ → List DirectoryEntry → Type 0 where
  stop_fit : {offset : ℕ} → self.block_size ≤ offset → FitChain m self b offset []
  next_fit :
      {offset : ℕ} {d : DirectoryEntry} {entries : List DirectoryEntry}
      → d ≡ directory_entry_at m (b + offset)
      → offset < self.block_size
      → 8 + d.name_len ≤ d.rec_len
      → offset + d.rec_len ≤ self.block_size
      → FitChain m self b (offset + d.rec_len) entries
      → FitChain m self b offset (d ∷ entries)

-- The direct blocks of a directory, as in `Blocks`.
pub data FitBlocks (m : Memory) (self : Fs) (root : Ptr)
    : ℕ → ℕ → List DirectoryEntry → Type 0 where
  done_fit : {index : ℕ} → FitBlocks m self root zero index []
  hole_fit :
      {left index : ℕ} {ds : List DirectoryEntry}
      → index < 12
      → (inode_at m root).block index ≡ 0
      → FitBlocks m self root left (index + 1) ds
      → FitBlocks m self root (suc left) index ds
  block_fit :
      {left index n b : ℕ} {ds rest all : List DirectoryEntry}
      → index < 12
      → (inode_at m root).block index ≡ n
      → n ≢ 0
      → get_block m self n ≡ some b
      → FitChain m self b 0 ds
      → FitBlocks m self root left (index + 1) rest
      → all ≡ ds ++ rest
      → FitBlocks m self root (suc left) index all

bytes_at_same :
    (m other : Memory) (p n : ℕ)
    → ((k : ℕ) → k < n → other (p + k) ≡ m (p + k))
    → bytes_at other p n ≡ bytes_at m p n
bytes_at_same m other p zero same = refl
bytes_at_same m other p (suc n) same =
    let e : p + 0 ≡ p = omega arith in
    ap₂ ◌∷◌ (ap other (sym e) ∙ same 0 (omega arith) ∙ ap m e) (
      bytes_at_same m other (p + 1) n λ k h.
        let f : p + 1 + k ≡ p + suc k = omega arith in
        ap other f ∙ same (suc k) (omega arith) ∙ ap m (sym f))

-- A record is the same when its header and its name are.
pub entry_same :
    (m other : Memory) (p : Ptr)
    → ((k : ℕ) → k < 8 + m (p + 6) → other (p + k) ≡ m (p + k))
    → directory_entry_at other p ≡ directory_entry_at m p
entry_same m other p same =
    let start : p + 0 ≡ p = omega arith in
    let at_0 : other p ≡ m p = ap other (sym start) ∙ same 0 (omega arith) ∙ ap m start in
    let long : other (p + 6) ≡ m (p + 6) = same 6 (omega arith) in
    let number : read32 other p ≡ read32 m p = read32-same other m p λ k h. same k (omega arith) in
    let fifth : p + 4 + 1 ≡ p + 5 = omega arith in
    let length_same : read16 other (p + 4) ≡ read16 m (p + 4) =
      ap₂ (λ (x y : ℕ). x + 256 * y) (same 4 (omega arith))
        (ap other fifth ∙ same 5 (omega arith) ∙ ap m (sym fifth)) in
    let name_same : bytes_at other (p + 8) (other (p + 6)) ≡ bytes_at m (p + 8) (m (p + 6)) =
      ap (bytes_at other (p + 8)) long
      ∙ bytes_at_same m other (p + 8) (m (p + 6)) λ k h.
        ap other (add_assoc p 8 k) ∙ same (8 + k) (omega arith) ∙ ap m (sym (add_assoc p 8 k)) in
    λ i. record {
      inode = number i;
      rec_len = length_same i;
      name_len = long i;
      file_type = same 7 (omega arith) i;
      name = name_same i;
    }

module _ (m : Memory) (self : Fs) where
  FitChain-Chain :
      {b : Ptr} {offset : ℕ} {ds : List DirectoryEntry}
      → FitChain m self b offset ds
      → Chain m self b offset ds
  FitChain-Chain (stop_fit e) = stop e
  FitChain-Chain {b} (next_fit {offset} {d} {entries} e inside named ends rest) =
      subst (λ t. Chain m self b offset (t ∷ entries)) (sym e)
        (next inside (subst (λ (t : DirectoryEntry). 0 < t.rec_len) e (omega arith)) (
          subst (λ (t : DirectoryEntry). Chain m self b (offset + t.rec_len) entries) e
            (FitChain-Chain rest)))

  pub FitBlocks-Blocks :
      {root : Ptr} {left index : ℕ} {ds : List DirectoryEntry}
      → FitBlocks m self root left index ds
      → Blocks m self root left index ds
  FitBlocks-Blocks done_fit = done
  FitBlocks-Blocks {root} (hole_fit {index} few none_here rest) =
      hole (get_inode_block_entry-direct m self root index few ∙ ap ok none_here)
        (FitBlocks-Blocks rest)
  FitBlocks-Blocks {root} (block_fit {index} few at some_number found chain rest all) =
      block (get_inode_block_entry-direct m self root index few ∙ ap ok at) some_number found
        (FitChain-Chain chain) (FitBlocks-Blocks rest) all
