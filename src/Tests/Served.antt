-- ===== src/Tests/Served.antt =====
-- The theorems on the server and the client at the device of the tests.
use fuse_ext.Base.{
  ℕ, ◌≤◌, ◌≡◌, ◌⊎◌, ◌↔◌, inl, inr, refl, sym, ap, ◌∙◌, subst, Bool, true, false, if◌then◌else◌,
  Option, none, some, List, [], ◌∷◌, ◌++◌, length, drop, Ptr, Memory, arith, Outcome, ok,
  ok-injective, fault,
}
use fuse_ext.Base.Int.{ℤ, pos}
use fuse_ext.Collections.View.{find}
use fuse_ext.Strings.Split.Laws.{fields, nonempty}
use fuse_ext.Ext2.Layout.{has_mode_flag, ext2_ifdir, inode_at, DirectoryEntry, directory_entry_at}
use fuse_ext.Ext2.Geometry.{get_block, has_superblock}
use fuse_ext.Ext2.Groups.{get_inode, get_block_group}
use fuse_ext.Ext2.BlockMap.{get_inode_block_entry}
use fuse_ext.Ext2.Directory.{InodeEntry, list_inode, is_named, find_inode, slash, get_element_inode}
use fuse_ext.Ext2.Directory.First.{IsFirst-find}
use fuse_ext.Ext2.Directory.Paths.{Resolves}
use fuse_ext.Ext2.Directory.Outcomes.{Misses, Blocked, IsTree, find_inode_outcomes}
use fuse_ext.Ext2.Data.{write_inode_data}
use fuse_ext.Rpc.{GetAttrResponse, ReadResponse, attributes, content, written}
use fuse_ext.Server.{serve}
use fuse_ext.Client.Returns.{FirstContent, fuse_read_iff}
use fuse_ext.Client.{Stat, fuse_getattr, fuse_read, fuse_write, minus_enoent}
use fuse_ext.Client.Laws.{quiet}
use fuse_ext.System.{fuse_read-serve}
use fuse_ext.Ext2.Data.Content.{contents}
use fuse_ext.Ext2.Data.Read.{direct_block}
use fuse_ext.System.Getattr.{stat_of_inode, fuse_getattr-serve}
use fuse_ext.System.Write.{fuse_write-fuse_read}
use fuse_ext.Tests.Runs.{root_found, hello_found, written_run, written_found}
use fuse_ext.Tests.Disk.{
  hello-IsDirect, disk, fs, hello, buff, root_inode, hello_inode, hello-IsWritable, no_clusters,
}

abbrev hello_name : List ℕ
hello_name = b'h' ∷ b'e' ∷ b'l' ∷ b'l' ∷ b'o' ∷ []

abbrev empty_stat : Stat
empty_stat = record { st_mode = 0; st_size = 0; st_nlink = 0; st_blocks = 0 }

-- The inodes of the device.
abbrev IsThere : Ptr → Type 0
IsThere d = (d ≡ root_inode) ⊎ (d ≡ hello_inode)

abbrev hello_entry : InodeEntry
hello_entry = record { inode_index = 12; name = hello_name; inode = hello_inode }

listed : list_inode disk fs root_inode ≡ ok (some (hello_entry ∷ []))
unfolding list_inode has_mode_flag get_inode_block_entry get_inode get_block_group has_superblock
    get_block
listed = refl

file : has_mode_flag (inode_at disk hello_inode) ext2_ifdir ≡ false
unfolding has_mode_flag
file = refl

no_list : list_inode disk fs hello_inode ≡ ok none
unfolding list_inode has_mode_flag
no_list = refl

at_hello : get_inode disk fs 12 ≡ ok hello_inode
unfolding get_inode get_block_group has_superblock get_block
at_hello = refl

only :
    (name : List ℕ) (e : InodeEntry)
    → find (is_named name) (hello_entry ∷ []) ≡ some e
    → e ≡ hello_entry
only name e found = by_test (is_named name hello_entry) found
  where
    by_test : (b : Bool) → (if b then some hello_entry else none) ≡ some e → e ≡ hello_entry
    by_test true h = cc
    by_test false h = cc

disk-IsTree : IsTree disk fs IsThere
disk-IsTree = record {
  lists = λ d there directory. elim there [
    | inl at_root ↦ (hello_entry ∷ [], ap (list_inode disk fs) at_root ∙ listed)
    | inr at_file ↦
        let clash : false ≡ true =
          sym file
          ∙ ap (λ t. has_mode_flag (inode_at disk t) ext2_ifdir) (sym at_file)
          ∙ directory in
        cc
  ];
  leads = λ d es name e there lists found. elim there [
    | inl at_root ↦
        let whole : ok (some es) ≡ ok (some (hello_entry ∷ [])) =
          sym lists ∙ ap (list_inode disk fs) at_root ∙ listed in
        let same : es ≡ hello_entry ∷ [] = cc in
        let e_is = only name e (ap (find (is_named name)) (sym same) ∙ IsFirst-find found) in
        (
          hello_inode,
          ap (λ (t : InodeEntry). get_inode disk fs t.inode_index) e_is ∙ at_hello,
          inr refl,
        )
    | inr at_file ↦
        let clash : ok (some es) ≡ ok none =
          sym lists ∙ ap (list_inode disk fs) at_file ∙ no_list in
        cc
  ];
}

outcomes_example :
    ((t : Ptr) × Resolves disk fs root_inode (hello_name ∷ []) t
      × (find_inode disk fs root_inode (hello_name ∷ []) ≡ ok (some t)))
    ⊎ ((Misses disk fs root_inode (hello_name ∷ [])
          × (find_inode disk fs root_inode (hello_name ∷ []) ≡ ok none))
        ⊎ (Blocked disk fs root_inode (hello_name ∷ [])
            × (find_inode disk fs root_inode (hello_name ∷ []) ≡ fault)))
outcomes_example =
    find_inode_outcomes disk fs IsThere root_inode (hello_name ∷ []) disk-IsTree (inl refl)

abbrev getattr_hello : List (Option GetAttrResponse) → Outcome (ℤ × Stat)
getattr_hello = (fuse_getattr hello empty_stat).1

getattr_serve_example :
    ((t : Ptr) × (answer : GetAttrResponse) × Resolves disk fs root_inode
        (nonempty (fields slash hello_name))
        t
      × (serve no_clusters disk fs (fuse_getattr hello empty_stat).0 ≡ ok (disk, attributes answer))
      × (getattr_hello (quiet 2 (some answer ∷ [])) ≡ ok (pos 0, stat_of_inode (inode_at disk t))))
    ⊎ (((answer : GetAttrResponse) × Misses disk fs root_inode (nonempty (fields slash hello_name))
          × (serve no_clusters disk fs (fuse_getattr hello empty_stat).0
              ≡ ok (disk, attributes answer))
          × (getattr_hello (quiet 2 (some answer ∷ [])) ≡ ok (minus_enoent, empty_stat)))
        ⊎ (Blocked disk fs root_inode (nonempty (fields slash hello_name))
            × (serve no_clusters disk fs (fuse_getattr hello empty_stat).0 ≡ fault)))
getattr_serve_example =
    fuse_getattr-serve no_clusters disk fs hello_name root_found IsThere empty_stat 2 [] disk-IsTree
      (inl refl)

abbrev hello_record : DirectoryEntry
hello_record = directory_entry_at disk 8192

still_found :
    (after : Memory)
    → write_inode_data no_clusters disk fs hello_inode buff 1022 ≡ ok after
    → get_element_inode after fs hello ≡ ok (some hello_inode)
still_found after run =
    subst (λ (t : Memory). get_element_inode t fs hello ≡ ok (some hello_inode))
      (ok-injective (sym written_run ∙ run)) written_found

abbrev zeros : List ℕ
zeros = 0 ∷ 0 ∷ 0 ∷ 0 ∷ []

write_read_example :
    (after : Memory) × (answer : ReadResponse) × (serve no_clusters disk fs
        (fuse_write hello buff 1022).0
      ≡ ok (after, written false))
    × ((fuse_write hello buff 1022).1 (quiet 1 (some false ∷ [])) ≡ ok (pos 0, tt))
    × (serve no_clusters after fs (fuse_read hello zeros 1022).0 ≡ ok (after, content answer))
    × ((fuse_read hello zeros 1022).1 (quiet 2 (some answer ∷ [])) ≡ ok (pos 4, buff))
write_read_example =
    fuse_write-fuse_read no_clusters disk fs hello buff zeros 1022 1 2 [] []
      (hello-IsWritable 1022 1026 (omega arith)) (omega arith) (omega arith) (omega arith) refl
      hello_found still_found

read_serve_example :
    let bytes = contents disk 1024 (direct_block disk fs hello_inode) 1022 4 in
    (answer : ReadResponse) × (serve no_clusters disk fs (fuse_read hello zeros 1022).0
      ≡ ok (disk, content answer))
    × ((fuse_read hello zeros 1022).1 (quiet 2 (some answer ∷ [])) ≡ ok (pos 4, bytes ++ []))
read_serve_example =
    fuse_read-serve no_clusters disk fs hello zeros 1022 2 [] hello_found (omega arith)
      (omega arith) (omega arith) (omega arith) (hello-IsDirect _ (omega arith))

-- Nothing, an error, a response, and one more that is not looked at.
abbrev runs : List (Option ReadResponse)
runs =
    none
    ∷ some (record { bytes = []; error = true })
    ∷ some (record { bytes = 8 ∷ 9 ∷ []; error = false })
    ∷ some (record { bytes = buff; error = false })
    ∷ []

read_returns_example : ((fuse_read hello zeros 0).1 runs ≡ ok (pos 2, 8 ∷ 9 ∷ 0 ∷ 0 ∷ [])) ↔ (
    (bytes : List ℕ) × FirstContent runs bytes
    × (length bytes ≤ 4)
    × (◌≡◌ {A = ℤ × List ℕ}
        (pos 2, 8 ∷ 9 ∷ 0 ∷ 0 ∷ [])
        (pos (length bytes), bytes ++ drop (length bytes) zeros)))
read_returns_example = fuse_read_iff hello zeros 0 runs (pos 2, 8 ∷ 9 ∷ 0 ∷ 0 ∷ [])

read_returns : (fuse_read hello zeros 0).1 runs ≡ ok (pos 2, 8 ∷ 9 ∷ 0 ∷ 0 ∷ [])
unfolding fuse_read
read_returns = refl
