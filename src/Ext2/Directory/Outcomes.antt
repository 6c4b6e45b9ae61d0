-- ===== src/Ext2/Directory/Outcomes.antt =====
-- How a lookup can end.
use fuse_ext.Base.{
  ℕ, ◌≡◌, ap, ◌⊎◌, inl, inr, true, false, none, some, Option-cases, Bool-cases, List, [], ◌∷◌, Ptr,
  Memory, ok, fault,
}
use fuse_ext.Collections.View.{find}
use fuse_ext.Ext2.Layout.{inode_at, has_mode_flag, ext2_ifdir}
use fuse_ext.Ext2.Geometry.{Fs}
use fuse_ext.Ext2.Groups.{get_inode}
use fuse_ext.Ext2.Directory.{InodeEntry, list_inode, is_named, find_child, entry_inode, find_inode}
use fuse_ext.Ext2.Directory.First.{IsFirst, IsAbsent, find-IsFirst, find-IsAbsent, IsAbsent-find}
use fuse_ext.Ext2.Directory.Paths.{Resolves, here, step, Child-find_child, find_inode_iff}

-- The path leads to a directory that lists no entry under the next name.
pub data Misses (m : Memory) (self : Fs) : Ptr → List (List ℕ) → Type 0 where
  missing :
      {d : Ptr} {name : List ℕ} {path : List (List ℕ)} (es : List InodeEntry)
      → list_inode m self d ≡ ok (some es)
      → IsAbsent name es
      → Misses m self d (name ∷ path)
  further :
      {d d' : Ptr} {name : List ℕ} {path : List (List ℕ)} (es : List InodeEntry) (e : InodeEntry)
      → list_inode m self d ≡ ok (some es)
      → IsFirst name es e
      → get_inode m self e.inode_index ≡ ok d'
      → Misses m self d' path
      → Misses m self d (name ∷ path)

-- The path leads to an inode that is no directory, and goes on.
pub data Blocked (m : Memory) (self : Fs) : Ptr → List (List ℕ) → Type 0 where
  file :
      {d : Ptr} {name : List ℕ} {path : List (List ℕ)}
      → has_mode_flag (inode_at m d) ext2_ifdir ≡ false
      → Blocked m self d (name ∷ path)
  beyond :
      {d d' : Ptr} {name : List ℕ} {path : List (List ℕ)} (es : List InodeEntry) (e : InodeEntry)
      → list_inode m self d ≡ ok (some es)
      → IsFirst name es e
      → get_inode m self e.inode_index ≡ ok d'
      → Blocked m self d' path
      → Blocked m self d (name ∷ path)

-- A set of inodes in which every directory can be listed, and every entry that a name finds leads to
-- an inode of the set.
pub record IsTree (m : Memory) (self : Fs) (D : Ptr → Type 0) : Type 0 where
  pub lists :
      (d : Ptr)
      → D d
      → has_mode_flag (inode_at m d) ext2_ifdir ≡ true
      → (es : List InodeEntry) × (list_inode m self d ≡ ok (some es))
  pub leads :
      (d : Ptr) (es : List InodeEntry) (name : List ℕ) (e : InodeEntry)
      → D d
      → list_inode m self d ≡ ok (some es)
      → IsFirst name es e
      → (d' : Ptr) × (get_inode m self e.inode_index ≡ ok d') × D d'

child-none :
    (m : Memory) (self : Fs) (d : Ptr) (name : List ℕ) (es : List InodeEntry)
    → list_inode m self d ≡ ok (some es)
    → IsAbsent name es
    → find_child m self d name ≡ ok none
unfolding find_child
child-none m self d name es listed missed =
    rw listed (ap (entry_inode m self) (IsAbsent-find missed))

pub Misses-find_inode :
    {m : Memory} {self : Fs} {d : Ptr} {path : List (List ℕ)}
    → Misses m self d path
    → find_inode m self d path ≡ ok none
unfolding find_inode
Misses-find_inode {m} {self} (missing {d} {name} es listed missed) =
    rw (child-none m self d name es listed missed)
Misses-find_inode {m} {self} (further {d} {name} es e listed found at misses) =
    rw (Child-find_child m self d name es e listed found at) (Misses-find_inode misses)

pub Blocked-find_inode :
    {m : Memory} {self : Fs} {d : Ptr} {path : List (List ℕ)}
    → Blocked m self d path
    → find_inode m self d path ≡ fault
unfolding find_inode find_child list_inode
Blocked-find_inode (file no_directory) = rw no_directory
Blocked-find_inode {m} {self} (beyond {d} {name} es e listed found at blocked) =
    rw (Child-find_child m self d name es e listed found at) (Blocked-find_inode blocked)

abbrev Outcomes : Memory → Fs → Ptr → List (List ℕ) → Type 0
Outcomes m self d path =
    ((t : Ptr) × Resolves m self d path t) ⊎ (Misses m self d path ⊎ Blocked m self d path)

ways :
    (m : Memory) (self : Fs) (D : Ptr → Type 0) (d : Ptr) (path : List (List ℕ))
    → IsTree m self D
    → D d
    → Outcomes m self d path
ways m self D d [] tree inside = inl (d, here)
ways m self D d (name ∷ path) tree inside =
    elim (Bool-cases (has_mode_flag (inode_at m d) ext2_ifdir)) [
      | inr no_directory ↦ inr (inr (file no_directory))
      | inl directory ↦
          let (es, listed) = tree.lists d inside directory in
          elim (Option-cases (find (is_named name) es)) [
            | inl missed ↦ inr (inl (missing es listed (find-IsAbsent name es missed)))
            | inr (e, found_at) ↦
                let found = find-IsFirst name es e found_at in
                let (d', at, inside') = tree.leads d es name e inside listed found in
                elim (ways m self D d' path tree inside') [
                  | inl (t, leads) ↦ inl (t, step es e listed found at leads)
                  | inr (inl misses) ↦ inr (inl (further es e listed found at misses))
                  | inr (inr blocked) ↦ inr (inr (beyond es e listed found at blocked))
                ]
          ]
    ]

-- In a set of inodes whose directories can all be listed and whose entries lead to inodes of the set,
-- every lookup that starts in the set ends, in one of three ways: the path leads to an inode and
-- that is the result; it leads to a directory that has no entry under the next name and the result
-- is NULL; or it goes on behind an inode that is no directory, and the lookup faults.
pub find_inode_outcomes :
    (m : Memory) (self : Fs) (D : Ptr → Type 0) (d : Ptr) (path : List (List ℕ))
    → IsTree m self D
    → D d
    → ((t : Ptr) × Resolves m self d path t × (find_inode m self d path ≡ ok (some t)))
      ⊎ ((Misses m self d path × (find_inode m self d path ≡ ok none))
          ⊎ (Blocked m self d path × (find_inode m self d path ≡ fault)))
find_inode_outcomes m self D d path tree inside = elim (ways m self D d path tree inside) [
  | inl (t, leads) ↦ inl (t, leads, (find_inode_iff m self d t path).1 leads)
  | inr (inl misses) ↦ inr (inl (misses, Misses-find_inode misses))
  | inr (inr blocked) ↦ inr (inr (blocked, Blocked-find_inode blocked))
]
