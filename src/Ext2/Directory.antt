-- ===== src/Ext2/Directory.antt =====
-- Directories and paths: `ext2_get_block_directory_entrys`, `ext2_list_inode`, `ext2_find_inode`,
-- `ext2_get_element_inode` and `ext2_list_dir`.
pub mod Entries
pub mod First
pub mod Paths
pub mod Listing
pub mod Outcomes
pub mod Kept
use fuse_ext.Base.{
  ℕ, zero, suc, ◌+◌, ◌*◌, ◌/◌, ◌^◌, Bool, true, false, ◌&&◌, ◌==◌, ltb, if◌then◌else◌, Option, none,
  some, List, [], ◌∷◌, u32, Ptr, Memory, Outcome, ok, fault, out_of_fuel, ◌>>=◌, deref,
}
use fuse_ext.Collections.View.{add, find}
use fuse_ext.Strings.Split.{string_split}
use fuse_ext.Ext2.Layout.{
  superblock_at, inode_at, has_mode_flag, ext2_ifdir, DirectoryEntry, directory_entry_at,
}
use fuse_ext.Ext2.Geometry.{Fs, get_block}
use fuse_ext.Ext2.Groups.{get_root_inode, get_inode}
use fuse_ext.Ext2.BlockMap.{get_inode_block_entry}

-- t_ext2_inode_entry. `name` holds the copied bytes, without the NUL that is put behind them.
pub record InodeEntry : Type 0 where
  pub inode_index : ℕ
  pub name : List ℕ
  pub inode : Ptr

-- The C string in a buffer: the characters before the first NUL.
abbrev pub c_string : List ℕ → List ℕ
c_string [] = []
c_string (c ∷ s) = if c == 0 then [] else c ∷ c_string s

-- `strcmp(a, b) == 0`
abbrev pub str_eq : List ℕ → List ℕ → Bool
str_eq [] [] = true
str_eq [] (d ∷ t) = false
str_eq (c ∷ s) [] = false
str_eq (c ∷ s) (d ∷ t) = (c == d) && str_eq s t

unfoldable pub inode_entry_create : Memory → Fs → DirectoryEntry → Outcome InodeEntry
inode_entry_create m fs dir_entry = do
  inode ← get_inode m fs dir_entry.inode
  ok (record { inode_index = dir_entry.inode; name = dir_entry.name; inode = inode })

-- What a round of the loop adds to the list: nothing for an unused entry.
unfoldable pub add_entry :
    Memory → Fs → DirectoryEntry → List InodeEntry → Outcome (List InodeEntry)
unfolding inode_entry_create
add_entry m self entry list_to_fill =
    if entry.inode == 0
    then ok list_to_fill
    else (do inode_entry ← inode_entry_create m self entry; ok (add list_to_fill inode_entry))

-- The `while` over the entries of a block, on fuel.
unfoldable pub entries_loop :
    Memory → Fs → Option Ptr → ℕ → ℕ → List InodeEntry → Outcome (List InodeEntry)
entries_loop m self block zero offset list_to_fill = out_of_fuel
entries_loop m self block (suc fuel) offset list_to_fill =
    if ltb offset self.block_size
    then (do
      b ← deref block
      list ← add_entry m self (directory_entry_at m (b + offset)) list_to_fill
      entries_loop m self block fuel (offset + (directory_entry_at m (b + offset)).rec_len) list)
    else ok list_to_fill

unfoldable pub get_block_directory_entries :
    Memory → Fs → Option Ptr → List InodeEntry → Outcome (List InodeEntry)
unfolding entries_loop add_entry
get_block_directory_entries m self block list_to_fill =
    entries_loop m self block (self.block_size + 1) 0 list_to_fill

-- One block of a directory; the block number 0 stands for a hole.
unfoldable pub add_block : Memory → Fs → ℕ → List InodeEntry → Outcome (List InodeEntry)
unfolding get_block_directory_entries
add_block m self block_entry list =
    if block_entry == 0
    then ok list
    else get_block_directory_entries m self (get_block m self block_entry) list

-- The `for` over the blocks of a directory: `left` rounds from `index` on.
unfoldable pub blocks_loop : Memory → Fs → Ptr → ℕ → ℕ → List InodeEntry → Outcome (List InodeEntry)
blocks_loop m self root zero index list = ok list
blocks_loop m self root (suc left) index list = do
  block_entry ← get_inode_block_entry m self root index
  longer ← add_block m self block_entry list
  blocks_loop m self root left (index + 1) longer

-- `ok none` is NULL, for an inode that is no directory. `2 << log_block_size` is the number of
-- 512-byte units in a block; it is 0 when all its bits are shifted out.
unfoldable pub list_inode : Memory → Fs → Ptr → Outcome (Option (List InodeEntry))
unfolding blocks_loop add_block
list_inode m self root =
    let units = u32 (2 * 2 ^ (superblock_at m self.superblock).log_block_size) in
    if has_mode_flag (inode_at m root) ext2_ifdir
    then (if units == 0 then fault else (do
      list ← blocks_loop m self root ((inode_at m root).blocks / units) 0 []
      ok (some list)))
    else ok none

abbrev pub is_named : List ℕ → InodeEntry → Bool
is_named name entry = str_eq name (c_string entry.name)

abbrev pub entry_inode : Memory → Fs → Option InodeEntry → Outcome (Option Ptr)
entry_inode m self none = ok none
entry_inode m self (some entry) = do inode ← get_inode m self entry.inode_index; ok (some inode)

-- One name of a path: the inode of the first entry with that name, or NULL. `list_find` reads the
-- head of the list, so the list must not be NULL.
unfoldable pub find_child : Memory → Fs → Ptr → List ℕ → Outcome (Option Ptr)
find_child m self root name = do
  listed ← list_inode m self root
  subelements ← deref listed
  entry_inode m self (find (is_named name) subelements)

-- What follows when an inode was found; NULL is passed on.
abbrev pub on_found : Outcome (Option Ptr) → (Ptr → Outcome (Option Ptr)) → Outcome (Option Ptr)
on_found (ok none) k = ok none
on_found (ok (some inode)) k = k inode
on_found fault k = fault
on_found out_of_fuel k = out_of_fuel

unfoldable pub find_inode : Memory → Fs → Ptr → List (List ℕ) → Outcome (Option Ptr)
unfolding find_child
find_inode m self root [] = ok (some root)
find_inode m self root (name ∷ path) =
    on_found (find_child m self root name) λ inode. find_inode m self inode path

abbrev pub slash : List ℕ
slash = b'/' ∷ []

-- `path + 1` of an empty string lies behind its NUL.
abbrev pub behind_first : List ℕ → Outcome (List ℕ)
behind_first [] = fault
behind_first (c ∷ s) = ok s

unfoldable pub get_element_inode : Memory → Fs → List ℕ → Outcome (Option Ptr)
unfolding find_inode string_split
get_element_inode m self path = do
  root_inode ← get_root_inode m self
  if str_eq slash path then ok (some root_inode) else (do
    relative ← behind_first path
    path_stack ← string_split relative slash
    find_inode m self root_inode path_stack)

-- `ok none` is NULL.
unfoldable pub list_dir : Memory → Fs → List ℕ → Outcome (Option (List InodeEntry))
unfolding get_element_inode list_inode
list_dir m self dir_path = do
  inode ← get_element_inode m self dir_path
  elim inode [ none ↦ ok none | some root ↦ list_inode m self root ]
