-- ===== src/System/Getattr.antt =====
-- A FUSE getattr through the server.
use fuse_ext.Base.{
  ℕ, ◌≡◌, refl, ap, ◌∙◌, ◌⊎◌, inl, inr, Bool, true, false, if◌then◌else◌, Option, none, some, List,
  ◌∷◌, bit_or, Ptr, Memory, ok, fault,
}
use fuse_ext.Base.Int.{pos}
use fuse_ext.Strings.Split.Laws.{fields, nonempty}
use fuse_ext.Ext2.Layout.{Inode, inode_at, has_mode_flag, ext2_ifdir}
use fuse_ext.Ext2.Geometry.{Fs}
use fuse_ext.Ext2.Groups.{get_root_inode}
use fuse_ext.Ext2.Directory.{slash, find_inode}
use fuse_ext.Ext2.Directory.Paths.{Resolves, get_element_inode-fields}
use fuse_ext.Ext2.Directory.Outcomes.{Misses, Blocked, IsTree, find_inode_outcomes}
use fuse_ext.Ext2.Resize.{Clusters}
use fuse_ext.Rpc.{GetAttrResponse, get_attr_init, attributes, get_attr}
use fuse_ext.Server.{serve, service_get_attr, attributes_of, get_attr_response}
use fuse_ext.Client.{Stat, fuse_getattr, minus_enoent}
use fuse_ext.Client.Laws.{quiet, fuse_getattr-response, stat_of}

-- What stat(2) says of an inode: a directory is read-only, a file may be read and written, by all.
abbrev pub stat_of_inode : Inode → Stat
stat_of_inode inode = record {
  st_mode = if has_mode_flag inode ext2_ifdir then 0o040444 else 0o100666;
  st_size = inode.size;
  st_nlink = inode.links_count;
  st_blocks = inode.blocks;
}

by_kind :
    (directory : Bool)
    → (if directory then bit_or 0o040000 0o444 else bit_or (bit_or 0o100000 0o444) 0o222)
      ≡ (if directory then 0o040444 else 0o100666)
by_kind true = refl
by_kind false = refl

pub stat_of-attributes_of : (inode : Inode) → stat_of (attributes_of inode) ≡ stat_of_inode inode
unfolding attributes_of
stat_of-attributes_of inode =
    ap
      (λ (mode : ℕ). record {
        st_mode = mode;
        st_size = inode.size;
        st_nlink = inode.links_count;
        st_blocks = inode.blocks;
      })
      (by_kind (has_mode_flag inode ext2_ifdir))

module _ (clusters : Clusters) (m : Memory) (fs : Fs) (s : List ℕ) {root : Ptr}
    (at : get_root_inode m fs ≡ ok root) where
  -- What the server answers, by what the lookup finds.
  answer :
      (r : Option Ptr)
      → find_inode m fs root (nonempty (fields slash s)) ≡ ok r
      → serve clusters m fs (get_attr (b'/' ∷ s)) ≡ ok (m, attributes (get_attr_response m r))
  unfolding serve service_get_attr
  answer r found = rw (get_element_inode-fields m fs s, at) (rw found)

  no_answer :
      find_inode m fs root (nonempty (fields slash s)) ≡ fault
      → serve clusters m fs (get_attr (b'/' ∷ s)) ≡ fault
  unfolding serve service_get_attr
  no_answer found = rw (get_element_inode-fields m fs s, at) (rw found)

  -- A FUSE getattr of any path, on a device whose directories, from the root on, can be listed and
  -- whose entries lead to inodes: if the names of the path lead to an inode, the client returns 0 and
  -- the kind, the size and the counts that the device holds of it; if a directory on the way has no
  -- such entry, it returns -ENOENT and leaves the buffer; if the path goes on behind an inode that
  -- is no directory, the server faults. The device is not changed.
  pub fuse_getattr-serve :
      (D : Ptr → Type 0) (stbuf : Stat) (n : ℕ) (runs : List (Option GetAttrResponse))
      → IsTree m fs D
      → D root
      → let names = nonempty (fields slash s) in
        let (request, result) = fuse_getattr (b'/' ∷ s) stbuf in
        ((t : Ptr) × (answer : GetAttrResponse) × Resolves m fs root names t
          × (serve clusters m fs request ≡ ok (m, attributes answer))
          × (result (quiet n (some answer ∷ runs)) ≡ ok (pos 0, stat_of_inode (inode_at m t))))
        ⊎ (((answer : GetAttrResponse) × Misses m fs root names
              × (serve clusters m fs request ≡ ok (m, attributes answer))
              × (result (quiet n (some answer ∷ runs)) ≡ ok (minus_enoent, stbuf)))
            ⊎ (Blocked m fs root names × (serve clusters m fs request ≡ fault)))
  unfolding fuse_getattr
  fuse_getattr-serve D stbuf n runs tree inside =
      elim (find_inode_outcomes m fs D root (nonempty (fields slash s)) tree inside) [
        | inl (t, leads, found) ↦ inl (
          t,
          attributes_of (inode_at m t),
          leads,
          answer (some t) found,
          fuse_getattr-response (b'/' ∷ s) stbuf n (attributes_of (inode_at m t)) runs
              ∙ unfold attributes_of in
                ap (λ st. ok (pos 0, st)) (stat_of-attributes_of (inode_at m t)),
        )
        | inr (inl (misses, found)) ↦ inr (
            inl (
              get_attr_init,
              misses,
              answer none found,
              fuse_getattr-response (b'/' ∷ s) stbuf n get_attr_init runs,
            ))
        | inr (inr (blocked, found)) ↦ inr (inr (blocked, no_answer found))
      ]
