-- ===== src/Ext2/Directory/Listing.antt =====
-- The list of a directory, through all its blocks.
use fuse_ext.Base.{
  ℕ, zero, suc, ◌+◌, ◌*◌, ◌/◌, ◌^◌, ◌≡◌, ◌≢◌, refl, sym, ap, fun_ext, ◌∙◌, true, ◌==◌, ne→==, some,
  List, [], ◌∷◌, ◌++◌, append_assoc, append-nil, u32, Ptr, Memory, Outcome, ok, fault, out_of_fuel,
  ◌>>=◌, Bool-cases, inl, inr,
}
use fuse_ext.Ext2.Layout.{superblock_at, inode_at, has_mode_flag, ext2_ifdir, DirectoryEntry}
use fuse_ext.Ext2.Geometry.{Fs, get_block}
use fuse_ext.Ext2.BlockMap.{get_inode_block_entry}
use fuse_ext.Ext2.Directory.{InodeEntry, inode_entry_create, add_block, blocks_loop, list_inode}
use fuse_ext.Ext2.Directory.Entries.{Chain, create_used, get_block_directory_entries-Chain}

-- So many blocks of a directory from one index on: a hole, or a block whose records are chained to
-- its end. The records of all of them, in their order.
pub data Blocks (m : Memory) (self : Fs) (root : Ptr) : ℕ → ℕ → List DirectoryEntry → Type 0 where
  done : {index : ℕ} → Blocks m self root zero index []
  hole :
      {left index : ℕ} {ds : List DirectoryEntry}
      → get_inode_block_entry m self root index ≡ ok 0
      → Blocks m self root left (index + 1) ds
      → Blocks m self root (suc left) index ds
  block :
      {left index n b : ℕ} {ds rest all : List DirectoryEntry}
      → get_inode_block_entry m self root index ≡ ok n
      → n ≢ 0
      → get_block m self n ≡ some b
      → Chain m self b 0 ds
      → Blocks m self root left (index + 1) rest
      → all ≡ ds ++ rest
      → Blocks m self root (suc left) index all

-- Putting one list of entries behind another, with what may fail on the way.
both : Outcome (List InodeEntry) → Outcome (List InodeEntry) → Outcome (List InodeEntry)
both a b = a >>= λ xs. b >>= λ ys. ok (xs ++ ys)

both-cons :
    (r : Outcome InodeEntry) (a b : Outcome (List InodeEntry))
    → (r >>= λ x. both a b >>= λ xs. ok (x ∷ xs)) ≡ both (r >>= λ x. a >>= λ xs. ok (x ∷ xs)) b
unfolding both
both-cons (ok x) (ok xs) (ok ys) = refl
both-cons (ok x) (ok xs) fault = refl
both-cons (ok x) (ok xs) out_of_fuel = refl
both-cons (ok x) fault b = refl
both-cons (ok x) out_of_fuel b = refl
both-cons fault a b = refl
both-cons out_of_fuel a b = refl

both-nil : (b : Outcome (List InodeEntry)) → b ≡ both (ok []) b
unfolding both
both-nil (ok ys) = refl
both-nil fault = refl
both-nil out_of_fuel = refl

-- The list so far, then the entries of one block, then those of the others.
both-behind :
    (list : List InodeEntry) (a b : Outcome (List InodeEntry))
    → ((a >>= λ xs. ok (list ++ xs)) >>= λ longer. b >>= λ ys. ok (longer ++ ys))
      ≡ (both a b >>= λ zs. ok (list ++ zs))
unfolding both
both-behind list (ok xs) (ok ys) = ap ok (append_assoc list xs ys)
both-behind list (ok xs) fault = refl
both-behind list (ok xs) out_of_fuel = refl
both-behind list fault b = refl
both-behind list out_of_fuel b = refl

module _ (m : Memory) (self : Fs) where
  create_used-append :
      (ds es : List DirectoryEntry)
      → create_used m self (ds ++ es) ≡ both (create_used m self ds) (create_used m self es)
  unfolding create_used
  create_used-append [] es = both-nil (create_used m self es)
  create_used-append (d ∷ ds) es = elim (Bool-cases (d.inode == 0)) [
    | inl e ↦ rw e (create_used-append ds es)
    | inr e ↦ rw e (
        rw (create_used-append ds es)
          (both-cons (inode_entry_create m self d) (create_used m self ds) (create_used m self es)))
  ]

  blocks_loop-Blocks :
      {root : Ptr} {left index : ℕ} {ds : List DirectoryEntry} (list : List InodeEntry)
      → Blocks m self root left index ds
      → blocks_loop m self root left index list ≡ (create_used m self ds >>= λ xs. ok (list ++ xs))
  unfolding blocks_loop add_block create_used
  blocks_loop-Blocks list done = ap ok (sym (append-nil list))
  blocks_loop-Blocks list (hole none_here rest) = rw none_here (blocks_loop-Blocks list rest)
  blocks_loop-Blocks {root} {left = suc left} {index} list
        (block {n} {b} {ds} {rest = es} number some_number found chain rest all) =
      rw (number, ne→== n 0 some_number)
        (rw (found, get_block_directory_entries-Chain m self b list chain)
          (rw (all, create_used-append ds es)
            (ap (λ next. (create_used m self ds >>= λ xs. ok (list ++ xs)) >>= next)
                (fun_ext λ longer. blocks_loop-Blocks longer rest)
              ∙ both-behind list (create_used m self ds) (create_used m self es))))

  pub list_inode-Blocks :
      (root : Ptr) {ds : List DirectoryEntry}
      → has_mode_flag (inode_at m root) ext2_ifdir ≡ true
      → let units = u32 (2 * 2 ^ (superblock_at m self.superblock).log_block_size) in
        units ≢ 0
        → Blocks m self root ((inode_at m root).blocks / units) 0 ds
        → list_inode m self root ≡ (create_used m self ds >>= λ es. ok (some es))
  unfolding list_inode
  list_inode-Blocks root {ds} directory sized blocks =
      rw (directory, ne→== _ 0 sized)
        (rw (blocks_loop-Blocks [] blocks) (nothing_before (create_used m self ds)))
    where
      nothing_before :
          (r : Outcome (List InodeEntry))
          → ((r >>= λ xs. ok xs) >>= λ list. ok (some list)) ≡ (r >>= λ es. ok (some es))
      nothing_before (ok xs) = refl
      nothing_before fault = refl
      nothing_before out_of_fuel = refl
