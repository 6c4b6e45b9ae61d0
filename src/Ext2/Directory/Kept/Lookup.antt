-- ===== src/Ext2/Directory/Kept/Lookup.antt =====
-- Lookups in two memories that agree on the directories of the path.
use fuse_ext.Base.{
  ℕ, ◌+◌, ◌*◌, ◌/◌, ◌^◌, ◌<◌, ◌≡◌, ◌≢◌, refl, sym, subst, ap, ap₂, ◌∙◌, true, Bool-cases, inl, inr,
  ◌==◌, some, List, [], ◌∷◌, u32, Ptr, Memory, read32-same, arith, ok, ◌>>=◌,
}
use native.Mathlib.Nat.{add_assoc}
use fuse_ext.Ext2.Layout.{superblock_at, inode_at, has_mode_flag, ext2_ifdir, DirectoryEntry}
use fuse_ext.Ext2.Geometry.{Fs, get_block}
use fuse_ext.Ext2.Groups.{get_inode, get_root_inode}
use fuse_ext.Ext2.Groups.Same.{
  SameGroups, same_field, same_get_block, same_get_inode, same_get_root_inode,
}
use fuse_ext.Ext2.Groups.Laws.{start_of}
use fuse_ext.Strings.Split.Laws.{fields, nonempty}
use fuse_ext.Ext2.Directory.{
  InodeEntry, inode_entry_create, list_inode, get_element_inode, list_dir, slash,
}
use fuse_ext.Ext2.Directory.Entries.{create_used}
use fuse_ext.Ext2.Directory.Listing.{list_inode-Blocks}
use fuse_ext.Ext2.Directory.First.{IsFirst}
use fuse_ext.Ext2.Directory.Paths.{Resolves, here, step, find_inode_iff, get_element_inode-fields}
use fuse_ext.Ext2.Directory.Kept.{
  FitChain, stop_fit, next_fit, FitBlocks, done_fit, hole_fit, block_fit, entry_same,
  FitBlocks-Blocks,
}

-- The two memories hold the same inode of a directory and the same direct blocks.
pub record SameDirectory (m other : Memory) (self : Fs) (root : Ptr) : Type 0 where
  pub of_inode : (i : ℕ) → i < 128 → other (root + i) ≡ m (root + i)
  pub of_block :
      (index b i : ℕ)
      → index < 12
      → (inode_at m root).block index ≢ 0
      → get_block m self ((inode_at m root).block index) ≡ some b
      → i < self.block_size
      → other (b + i) ≡ m (b + i)

FitChain-kept :
    {m other : Memory} {self : Fs} {b offset : ℕ} {ds : List DirectoryEntry}
    → ((i : ℕ) → i < self.block_size → other (b + i) ≡ m (b + i))
    → FitChain m self b offset ds
    → FitChain other self b offset ds
FitChain-kept same (stop_fit e) = stop_fit e
FitChain-kept {m} {other} {b} same (next_fit {offset} {d} e inside named ends rest) =
    let size : d.name_len ≡ m (b + offset + 6) = ap (λ (t : DirectoryEntry). t.name_len) e in
    let entry = entry_same m other (b + offset) λ k h.
      ap other (add_assoc b offset k)
      ∙ same (offset + k) (omega arith)
      ∙ ap m (sym (add_assoc b offset k)) in
    next_fit (e ∙ sym entry) inside named ends (FitChain-kept same rest)

module _ {m other : Memory} {self : Fs} (groups : SameGroups m other self) where
  create_used_same : (ds : List DirectoryEntry) → create_used other self ds ≡ create_used m self ds
  unfolding create_used inode_entry_create
  create_used_same [] = refl
  create_used_same (d ∷ ds) = elim (Bool-cases (d.inode == 0)) [
    | inl e ↦ rw e (create_used_same ds)
    | inr e ↦ rw e (rw (same_get_inode groups d.inode, create_used_same ds) refl)
  ]

  module _ {root : Ptr} (same : SameDirectory m other self root) where
    block_same : (b : ℕ) → b < 12 → (inode_at other root).block b ≡ (inode_at m root).block b
    block_same b h = read32-same other m (root + 40 + 4 * b) λ i below.
        let e : root + 40 + 4 * b + i ≡ root + (40 + 4 * b + i) = omega arith in
        ap other e ∙ same.of_inode (40 + 4 * b + i) (omega arith) ∙ ap m (sym e)

    FitBlocks-kept :
        {left index : ℕ} {ds : List DirectoryEntry}
        → FitBlocks m self root left index ds
        → FitBlocks other self root left index ds
    FitBlocks-kept done_fit = done_fit
    FitBlocks-kept (hole_fit {index} few none_here rest) =
        hole_fit few (block_same index few ∙ none_here) (FitBlocks-kept rest)
    FitBlocks-kept (block_fit {index} {n} {b} few at some_number found chain rest all) =
        block_fit few (block_same index few ∙ at) some_number (same_get_block groups n ∙ found)
          (FitChain-kept
            (λ i h.
              same.of_block index b i few (λ e. some_number (sym at ∙ e))
                (ap (get_block m self) at ∙ found) h)
            chain)
          (FitBlocks-kept rest) all

    mode_same : (inode_at other root).mode ≡ (inode_at m root).mode
    mode_same =
        let e : root + 0 ≡ root = omega arith in
        ap₂ (λ (x y : ℕ). x + 256 * y) (ap other (sym e) ∙ same.of_inode 0 (omega arith) ∙ ap m e)
          (same.of_inode 1 (omega arith))

    blocks_same : (inode_at other root).blocks ≡ (inode_at m root).blocks
    blocks_same = read32-same other m (root + 28) λ i h.
        ap other (add_assoc root 28 i)
        ∙ same.of_inode (28 + i) (omega arith)
        ∙ ap m (sym (add_assoc root 28 i))

    -- A directory whose records fit is listed alike.
    list_inode_same :
        {ds : List DirectoryEntry}
        → has_mode_flag (inode_at m root) ext2_ifdir ≡ true
        → let units = u32 (2 * 2 ^ (superblock_at m self.superblock).log_block_size) in
          units ≢ 0
          → FitBlocks m self root ((inode_at m root).blocks / units) 0 ds
          → list_inode other self root ≡ list_inode m self root
    unfolding has_mode_flag
    list_inode_same {ds} directory sized fit =
        let units_of : ℕ → ℕ = λ t. u32 (2 * 2 ^ t) in
        let units = ap units_of (same_field groups 24 (omega arith)) in
        let directory' : has_mode_flag (inode_at other root) ext2_ifdir ≡ true =
          rw mode_same directory in
        let count = ap₂ (λ (x y : ℕ). x / y) blocks_same units in
        list_inode-Blocks other self root directory' (λ e. sized (sym units ∙ e))
          (FitBlocks-Blocks other self
            (subst (λ (n : ℕ). FitBlocks other self root n 0 ds) (sym count) (FitBlocks-kept fit)))
        ∙ ap (λ r. r >>= λ es. ok (some es)) (create_used_same ds)
        ∙ sym (list_inode-Blocks m self root directory sized (FitBlocks-Blocks m self fit))

-- The addresses K hold all that a lookup of inodes reads.
pub record GroupsOn (m : Memory) (self : Fs) (K : Ptr → Type 0) : Type 0 where
  pub superblock : (i : ℕ) → i < 204 → K (self.superblock + i)
  pub descriptor :
      (g d i : ℕ)
      → g < self.number_of_block_groups
      → get_block m self (u32 (start_of m self g + 1)) ≡ some d
      → i < 32
      → K (d + i)

-- A path, as in `Resolves`, through directories whose records fit and whose inodes and direct blocks
-- lie in the addresses K.
pub data IsPath (m : Memory) (self : Fs) (K : Ptr → Type 0)
    : Ptr → List (List ℕ) → Ptr → Type 0 where
  here_on : {d : Ptr} → IsPath m self K d [] d
  step_on :
      {d d' t : Ptr} {name : List ℕ} {path : List (List ℕ)} {ds : List DirectoryEntry}
      (es : List InodeEntry) (e : InodeEntry)
      → ((i : ℕ) → i < 128 → K (d + i))
      → ((index b i : ℕ)
          → index < 12
          → (inode_at m d).block index ≢ 0
          → get_block m self ((inode_at m d).block index) ≡ some b
          → i < self.block_size
          → K (b + i))
      → has_mode_flag (inode_at m d) ext2_ifdir ≡ true
      → u32 (2 * 2 ^ (superblock_at m self.superblock).log_block_size) ≢ 0
      → FitBlocks m self d
          ((inode_at m d).blocks / u32 (2 * 2 ^ (superblock_at m self.superblock).log_block_size))
          0
          ds
      → list_inode m self d ≡ ok (some es)
      → IsFirst name es e
      → get_inode m self e.inode_index ≡ ok d'
      → IsPath m self K d' path t
      → IsPath m self K d (name ∷ path) t

-- A directory whose records fit and whose inode and direct blocks lie in the addresses K, with what
-- is listed of it.
pub record IsListed (m : Memory) (self : Fs) (K : Ptr → Type 0) (d : Ptr) (es : List InodeEntry)
    : Type 0 where
  pub records : List DirectoryEntry
  pub inode : (i : ℕ) → i < 128 → K (d + i)
  pub blocks :
      (index b i : ℕ)
      → index < 12
      → (inode_at m d).block index ≢ 0
      → get_block m self ((inode_at m d).block index) ≡ some b
      → i < self.block_size
      → K (b + i)
  pub directory : has_mode_flag (inode_at m d) ext2_ifdir ≡ true
  pub sized : u32 (2 * 2 ^ (superblock_at m self.superblock).log_block_size) ≢ 0
  pub fit :
      FitBlocks m self d
        ((inode_at m d).blocks / u32 (2 * 2 ^ (superblock_at m self.superblock).log_block_size))
        0
        records
  pub listed : list_inode m self d ≡ ok (some es)

module _ {m other : Memory} {self : Fs} {K : Ptr → Type 0} (agree : (a : Ptr) → K a → other a ≡ m a)
    (groups : GroupsOn m self K) where
  same_groups : SameGroups m other self
  same_groups = record {
    superblock = λ i h. agree _ (groups.superblock i h);
    descriptor = λ g d i there at h. agree _ (groups.descriptor g d i there at h);
  }

  IsPath-Resolves :
      {d t : Ptr} {path : List (List ℕ)} → IsPath m self K d path t → Resolves other self d path t
  IsPath-Resolves here_on = here
  IsPath-Resolves (step_on {d} es e inode blocks directory sized fit listed found at rest) =
      let same : SameDirectory m other self d = record {
        of_inode = λ i h. agree _ (inode i h);
        of_block =
            λ index b i few some_number found h. agree _ (blocks index b i few some_number found h);
      } in
      step es e (list_inode_same same_groups same directory sized fit ∙ listed) found
        (same_get_inode same_groups e.inode_index ∙ at) (IsPath-Resolves rest)

  -- A path of which every directory has direct blocks, with records that fit them, leads to the same
  -- inode in any memory that agrees with this one on the superblock, the descriptors of the groups,
  -- and the inodes and blocks of these directories.
  pub get_element_inode-IsPath :
      (s : List ℕ) {root t : Ptr}
      → get_root_inode m self ≡ ok root
      → IsPath m self K root (nonempty (fields slash s)) t
      → get_element_inode other self (b'/' ∷ s) ≡ ok (some t)
  get_element_inode-IsPath s {root} {t} at path =
      get_element_inode-fields other self s
      ∙ rw (same_get_root_inode same_groups, at)
          ((find_inode_iff other self root t (nonempty (fields slash s))).1 (IsPath-Resolves path))

  -- The listing of such a directory, too.
  pub list_dir-IsListed :
      (s : List ℕ) {root d : Ptr} {es : List InodeEntry}
      → get_root_inode m self ≡ ok root
      → IsPath m self K root (nonempty (fields slash s)) d
      → IsListed m self K d es
      → list_dir other self (b'/' ∷ s) ≡ ok (some es)
  unfolding list_dir
  list_dir-IsListed s {root} {d} at path there =
      let same : SameDirectory m other self d = record {
        of_inode = λ i h. agree _ (there.inode i h);
        of_block = λ index b i few some_number found h.
            agree _ (there.blocks index b i few some_number found h);
      } in
      rw (get_element_inode-IsPath s at path)
        (list_inode_same same_groups same there.directory there.sized there.fit ∙ there.listed)
