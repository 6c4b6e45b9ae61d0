-- ===== src/Ext2/Directory/Paths.antt =====
-- Path lookup against a relation.
use fuse_ext.Base.{
  ℕ, ◌≡◌, ◌↔◌, refl, sym, ap, subst, fun_ext, ◌∙◌, false, if◌then◌else◌, Option, some, none, List,
  [], ◌∷◌, ◌++◌, Ptr, Memory, arith, Outcome, ok, fault, out_of_fuel, ◌>>=◌, >>=-eq-ok, deref,
}
use fuse_ext.Collections.View.{find}
use fuse_ext.Ext2.Directory.First.{IsFirst, find-IsFirst, IsFirst-find}
use fuse_ext.Strings.Split.{string_split}
use fuse_ext.Strings.Split.Laws.{fields, nonempty, string_split-fields}
use fuse_ext.Ext2.Layout.{inode_at, has_mode_flag, ext2_ifdir}
use fuse_ext.Ext2.Geometry.{Fs}
use fuse_ext.Ext2.Groups.{get_root_inode, get_inode}
use fuse_ext.Ext2.Directory.{
  InodeEntry, list_inode, is_named, find_child, entry_inode, on_found, find_inode, slash, str_eq,
  get_element_inode,
}

-- The path leads from one inode to another: for each name, through the first entry with that name
-- of the directory's list.
pub data Resolves (m : Memory) (self : Fs) : Ptr → List (List ℕ) → Ptr → Type 0 where
  here : {d : Ptr} → Resolves m self d [] d
  step :
      {d d' t : Ptr} {name : List ℕ} {path : List (List ℕ)} (es : List InodeEntry) (e : InodeEntry)
      → list_inode m self d ≡ ok (some es)
      → IsFirst name es e
      → get_inode m self e.inode_index ≡ ok d'
      → Resolves m self d' path t
      → Resolves m self d (name ∷ path) t

on_found_assoc :
    (r : Outcome (Option Ptr)) (k l : Ptr → Outcome (Option Ptr))
    → on_found (on_found r k) l ≡ on_found r (λ x. on_found (k x) l)
on_found_assoc (ok none) k l = refl
on_found_assoc (ok (some x)) k l = refl
on_found_assoc fault k l = refl
on_found_assoc out_of_fuel k l = refl

on_found-some :
    (r : Outcome (Option Ptr)) (k : Ptr → Outcome (Option Ptr)) {t : Ptr}
    → on_found r k ≡ ok (some t)
    → (x : Ptr) × (r ≡ ok (some x)) × (k x ≡ ok (some t))
on_found-some (ok none) k h = cc
on_found-some (ok (some x)) k h = (x, refl, h)
on_found-some fault k h = cc
on_found-some out_of_fuel k h = cc

module _ (m : Memory) (self : Fs) where
  -- A child that is found is found through the list of its directory.
  abbrev Child : Ptr → List ℕ → Ptr → Type 0
  Child d name d' =
      (es : List InodeEntry) × (e : InodeEntry) × (list_inode m self d ≡ ok (some es))
      × (find (is_named name) es ≡ some e)
      × (get_inode m self e.inode_index ≡ ok d')

  from_entry :
      (o : Option InodeEntry) {d' : Ptr}
      → entry_inode m self o ≡ ok (some d')
      → (e : InodeEntry) × (o ≡ some e) × (get_inode m self e.inode_index ≡ ok d')
  from_entry none h = cc
  from_entry (some e) h =
      let (x, at, same) = >>=-eq-ok (get_inode m self e.inode_index) (λ inode. ok (some inode)) h in
      (e, refl, at ∙ ground arith)

  from_list :
      (listed : Option (List InodeEntry)) (name : List ℕ) {d' : Ptr}
      → (deref listed >>= λ subelements. entry_inode m self (find (is_named name) subelements))
        ≡ ok (some d')
      → (es : List InodeEntry) × (e : InodeEntry) × (listed ≡ some es)
        × (find (is_named name) es ≡ some e)
        × (get_inode m self e.inode_index ≡ ok d')
  from_list none name h = cc
  from_list (some es) name h =
      let (e, found, at) = from_entry (find (is_named name) es) h in (es, e, refl, found, at)

  find_child-Child :
      (d : Ptr) (name : List ℕ) {d' : Ptr}
      → find_child m self d name ≡ ok (some d')
      → Child d name d'
  unfolding find_child
  find_child-Child d name h =
      let (listed, e1, h1) = >>=-eq-ok (list_inode m self d) _ h in
      let (es, e, is, found, at) = from_list listed name h1 in (es, e, e1 ∙ ap ok is, found, at)

  to_list :
      (es : List InodeEntry) (e : InodeEntry) (name : List ℕ) {d' : Ptr}
      → find (is_named name) es ≡ some e
      → get_inode m self e.inode_index ≡ ok d'
      → (deref (some es) >>= λ subelements. entry_inode m self (find (is_named name) subelements))
        ≡ ok (some d')
  to_list es e name found at = ap (entry_inode m self) found ∙ rw at

  pub Child-find_child :
      (d : Ptr) (name : List ℕ) {d' : Ptr} (es : List InodeEntry) (e : InodeEntry)
      → list_inode m self d ≡ ok (some es)
      → IsFirst name es e
      → get_inode m self e.inode_index ≡ ok d'
      → find_child m self d name ≡ ok (some d')
  unfolding find_child
  Child-find_child d name es e listed found at =
      rw listed (to_list es e name (IsFirst-find found) at)

  Resolves-find_inode :
      {d t : Ptr} {path : List (List ℕ)}
      → Resolves m self d path t
      → find_inode m self d path ≡ ok (some t)
  unfolding find_inode
  Resolves-find_inode here = refl
  Resolves-find_inode (step {d} {name} es e listed found at rest) =
      rw (Child-find_child d name es e listed found at) (Resolves-find_inode rest)

  find_inode-Resolves :
      (d t : Ptr) (path : List (List ℕ))
      → find_inode m self d path ≡ ok (some t)
      → Resolves m self d path t
  unfolding find_inode
  find_inode-Resolves d t [] h =
      let same : d ≡ t = ground arith in subst (λ x. Resolves m self d [] x) same here
  find_inode-Resolves d t (name ∷ path) h =
      let (d', first, rest) =
        on_found-some (find_child m self d name) (λ x. find_inode m self x path) h in
      let (es, e, listed, found, at) = find_child-Child d name first in
      step es e listed (find-IsFirst name es e found) at (find_inode-Resolves d' t path rest)

  -- The lookup of a path finds an inode exactly when the path leads there: each name from a
  -- directory, through the first entry of its list whose name, up to a NUL, is the same characters,
  -- where every entry before it has another name, to the inode of that entry. A path of no names
  -- leads to where it starts.
  pub find_inode_iff :
      (d t : Ptr) (path : List (List ℕ))
      → (find_inode m self d path ≡ ok (some t)) ↔ Resolves m self d path t
  find_inode_iff d t path = (find_inode-Resolves d t path, Resolves-find_inode)

  -- Looking up a path in two parts: first the one, then the other from where it leads.
  pub find_inode-append :
      (d : Ptr) (p q : List (List ℕ))
      → find_inode m self d (p ++ q) ≡ on_found (find_inode m self d p) (λ t. find_inode m self t q)
  unfolding find_inode
  find_inode-append d [] q = refl
  find_inode-append d (name ∷ p) q =
      ap (on_found (find_child m self d name)) (fun_ext λ x. find_inode-append x p q)
      ∙ sym (
          on_found_assoc (find_child m self d name) (λ x. find_inode m self x p)
            (λ t. find_inode m self t q))

  -- A path that goes on behind an inode that is no directory does not give NULL: the lookup reads
  -- through the NULL list of that inode.
  pub find_inode-through_file :
      (d t : Ptr) (p q : List (List ℕ)) (name : List ℕ)
      → Resolves m self d p t
      → has_mode_flag (inode_at m t) ext2_ifdir ≡ false
      → find_inode m self d (p ++ name ∷ q) ≡ fault
  unfolding find_inode find_child list_inode
  find_inode-through_file d t p q name leads file =
      find_inode-append d p (name ∷ q) ∙ rw (Resolves-find_inode leads) (rw file)

  from_root :
      (root : Ptr) (s : List ℕ)
      → (if str_eq slash (b'/' ∷ s)
          then ok (some root)
          else (string_split s slash >>= λ path_stack. find_inode m self root path_stack))
        ≡ find_inode m self root (nonempty (fields slash s))
  unfolding fields find_inode
  from_root root [] = refl
  from_root root (c ∷ s) = rw (string_split-fields (c ∷ s) slash)

  -- An absolute path is looked up from the root by those of its names between slashes that are
  -- not empty: slashes at the end, in a row or alone make no difference.
  pub get_element_inode-fields :
      (s : List ℕ)
      → get_element_inode m self (b'/' ∷ s)
        ≡ (get_root_inode m self >>= λ root. find_inode m self root (nonempty (fields slash s)))
  unfolding get_element_inode
  get_element_inode-fields s =
      ap (λ k. get_root_inode m self >>= k) (fun_ext λ root. from_root root s)
