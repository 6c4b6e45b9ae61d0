-- ===== src/Ext2/Directory/Entries.antt =====
-- The entries of a directory block, one behind the other.
use fuse_ext.Base.{
  ℕ, zero, suc, ◌+◌, ◌-◌, ◌≤◌, ◌<◌, ◌≡◌, refl, ap, ◌∙◌, ◌==◌, if◌then◌else◌, some, List, [], ◌∷◌,
  ◌++◌, append_assoc, append-nil, Ptr, Memory, arith, Outcome, ok, fault, out_of_fuel, ◌>>=◌,
  lt→ltb, le→ltb, Bool-cases, inl, inr,
}
use fuse_ext.Ext2.Layout.{DirectoryEntry, directory_entry_at}
use fuse_ext.Ext2.Geometry.{Fs}
use fuse_ext.Ext2.Directory.{
  InodeEntry, inode_entry_create, add_entry, entries_loop, get_block_directory_entries,
}

-- The records of the block at `b` from `offset` on, each of which says how long it is, up to the
-- end of the block.
pub data Chain (m : Memory) (self : Fs) (b : Ptr) : ℕ → List DirectoryEntry → Type 0 where
  stop : {offset : ℕ} → self.block_size ≤ offset → Chain m self b offset []
  next :
      {offset : ℕ} {entries : List DirectoryEntry}
      → offset < self.block_size
      → 0 < (directory_entry_at m (b + offset)).rec_len
      → Chain m self b (offset + (directory_entry_at m (b + offset)).rec_len) entries
      → Chain m self b offset (directory_entry_at m (b + offset) ∷ entries)

-- The entries for the records in use.
unfoldable pub create_used : Memory → Fs → List DirectoryEntry → Outcome (List InodeEntry)
create_used m self [] = ok []
create_used m self (d ∷ ds) =
    if d.inode == 0
    then create_used m self ds
    else (do x ← inode_entry_create m self d; xs ← create_used m self ds; ok (x ∷ xs))

abbrev behind : List InodeEntry → Outcome (List InodeEntry) → Outcome (List InodeEntry)
behind list r = r >>= λ xs. ok (list ++ xs)

behind-cons :
    (list : List InodeEntry) (x : InodeEntry) (r : Outcome (List InodeEntry))
    → behind (list ++ x ∷ []) r ≡ behind list (r >>= λ xs. ok (x ∷ xs))
behind-cons list x (ok xs) = ap ok (append_assoc list (x ∷ []) xs)
behind-cons list x fault = refl
behind-cons list x out_of_fuel = refl

-- One entry more, and then the others.
behind-bind :
    (list : List InodeEntry) (r : Outcome InodeEntry) (c : Outcome (List InodeEntry))
    (k : List InodeEntry → Outcome (List InodeEntry))
    → ((x : InodeEntry) → k (list ++ x ∷ []) ≡ behind (list ++ x ∷ []) c)
    → ((r >>= λ x. ok (list ++ x ∷ [])) >>= k) ≡ behind list (r >>= λ x. c >>= λ xs. ok (x ∷ xs))
behind-bind list (ok x) c k others = others x ∙ behind-cons list x c
behind-bind list fault c k others = refl
behind-bind list out_of_fuel c k others = refl

module _ (m : Memory) (self : Fs) (b : Ptr) where
  entries_loop-Chain :
      (fuel : ℕ) {offset : ℕ} {ds : List DirectoryEntry} (list : List InodeEntry)
      → Chain m self b offset ds
      → self.block_size - offset < fuel
      → entries_loop m self (some b) fuel offset list ≡ behind list (create_used m self ds)
  unfolding entries_loop create_used add_entry
  entries_loop-Chain zero list chain enough = elim enough [ ]
  entries_loop-Chain (suc fuel) {offset} list (stop end) enough =
      rw (le→ltb offset self.block_size end, append-nil)
  entries_loop-Chain (suc fuel) {offset} list (next {entries} inside long chain) enough =
      let d = directory_entry_at m (b + offset) in
      rw (lt→ltb offset self.block_size inside) (elim (Bool-cases (d.inode == 0)) [
        | inl unused ↦ rw unused (entries_loop-Chain fuel list chain (omega arith))
        | inr used ↦
            let after = offset + d.rec_len in
            rw used (
              behind-bind list (inode_entry_create m self d) (create_used m self entries)
                (entries_loop m self (some b) fuel after)
                λ x. entries_loop-Chain fuel (list ++ x ∷ []) chain (omega arith))
      ])

  -- The loop over a block whose records are chained to its end stops, within the fuel it is given.
  -- It adds an entry for each record in use, in their order, behind the entries that were there, and
  -- faults exactly when the inode of one of them faults.
  pub get_block_directory_entries-Chain :
      {ds : List DirectoryEntry} (list : List InodeEntry)
      → Chain m self b 0 ds
      → get_block_directory_entries m self (some b) list
        ≡ (create_used m self ds >>= λ xs. ok (list ++ xs))
  unfolding get_block_directory_entries
  get_block_directory_entries-Chain list chain =
      entries_loop-Chain (self.block_size + 1) list chain (omega arith)

  -- A record of length 0 that is not in use holds the loop for ever: no fuel is enough.
  pub entries_loop-stuck :
      (offset : ℕ) (list : List InodeEntry)
      → offset < self.block_size
      → (directory_entry_at m (b + offset)).inode ≡ 0
      → (directory_entry_at m (b + offset)).rec_len ≡ 0
      → (fuel : ℕ) → entries_loop m self (some b) fuel offset list ≡ out_of_fuel
  unfolding entries_loop add_entry
  entries_loop-stuck offset list inside unused short zero = refl
  entries_loop-stuck offset list inside unused short (suc fuel) =
      let same : offset + (directory_entry_at m (b + offset)).rec_len ≡ offset = omega arith in
      rw (lt→ltb offset self.block_size inside, unused, same)
        (entries_loop-stuck offset list inside unused short fuel)
