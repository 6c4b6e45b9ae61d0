-- ===== src/Ext2/Resize/Laws.antt =====
-- The size of a file after a change of it.
use fuse_ext.Base.{
  ◌⊎◌, ==_iff, ℕ, ◌+◌, ◌^◌, ◌<◌, ◌≡◌, ◌≢◌, sym, ap, ◌∙◌, ◌==◌, u32, Ptr, Memory, read32, arith, ok,
  >>=-eq-ok, ok-injective, Bool-cases, inl, inr, ne→==,
}
use fuse_ext.Ext2.Layout.{inode_at}
use fuse_ext.Ext2.Geometry.{Fs}
use fuse_ext.Ext2.Resize.{Clusters, write32, ceil_div, change_clusters, resize_inode_data}

pub read32-write32 : (m : Memory) (p : Ptr) (v : ℕ) → v < 2 ^ 32 → read32 (write32 m p v) p ≡ v
read32-write32 m p v fits = ground arith

stored :
    (m : Memory) (inode : Ptr) (new_size : ℕ) {after : Memory}
    → new_size < 2 ^ 32
    → ok (write32 m (inode + 4) (u32 new_size)) ≡ ok after
    → (inode_at after inode).size ≡ new_size
stored m inode new_size fits set =
    let cut : u32 new_size ≡ new_size = omega arith in
    ap (λ (t : Memory). (inode_at t inode).size) (sym (ok-injective set))
    ∙ rw cut (read32-write32 m (inode + 4) new_size fits)

-- A resize that returns, to a size that fits 32 bits: if the new size takes as many clusters as the
-- old one, nothing has changed, the size included; otherwise the inode has the new size.
pub resize_inode_data-size :
    (clusters : Clusters) (m : Memory) (self : Fs) (inode : Ptr) (new_size : ℕ) {after : Memory}
    → self.block_size ≢ 0
    → new_size < 2 ^ 32
    → resize_inode_data clusters m self inode new_size ≡ ok after
    → let new_clusters = ceil_div new_size self.block_size in
      let curr_clusters = ceil_div (inode_at m inode).size self.block_size in
      ((new_clusters ≡ curr_clusters) × (after ≡ m))
      ⊎ ((new_clusters ≢ curr_clusters) × ((inode_at after inode).size ≡ new_size))
unfolding resize_inode_data
resize_inode_data-size clusters m self inode new_size {after} sized fits run =
    let new_clusters = ceil_div new_size self.block_size in
    let curr_clusters = ceil_div (inode_at m inode).size self.block_size in
    elim (Bool-cases (new_clusters == curr_clusters)) [
      | inl e ↦ inl (
        (==_iff new_clusters curr_clusters).0 e,
        sym (ok-injective (rw (ne→== self.block_size 0 sized, e) at run)),
      )
      | inr e ↦
          let (m', _, set) =
            >>=-eq-ok (change_clusters clusters m self inode new_clusters curr_clusters) _
              (rw (ne→== self.block_size 0 sized, e) at run) in
          inr (
            λ same. (let clash = (==_iff new_clusters curr_clusters).1 same in cc),
            stored m' inode new_size fits set,
          )
    ]
