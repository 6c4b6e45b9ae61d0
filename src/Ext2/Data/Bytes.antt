-- ===== src/Ext2/Data/Bytes.antt =====
-- A write keeps the device a memory of bytes.
use fuse_ext.Base.{
  ℕ, zero, suc, ◌+◌, ◌-◌, ◌*◌, ◌/◌, ◌<◌, ◌≡◌, subst, ltb, ◌==◌, Bool, List, [], ◌∷◌, length, take,
  drop, u32, if◌then◌else◌, true, false, Ptr, Memory, IsBytes, poke, copy_in, arith, Outcome, ok,
  ◌>>=◌, >>=-eq-ok, ok-injective,
}
use fuse_ext.Ext2.Layout.{inode_at}
use fuse_ext.Ext2.Geometry.{Fs}
use fuse_ext.Ext2.Resize.{Clusters, write32, ceil_div, change_clusters, resize_inode_data}
use fuse_ext.Ext2.Data.{data_block, next_size, write_loop, make_room, write_inode_data}

abbrev pub AreBytes : List ℕ → Type 0
AreBytes [] = Unit {0}
AreBytes (x ∷ xs) = (x < 256) × AreBytes xs

take-AreBytes : (n : ℕ) (xs : List ℕ) → AreBytes xs → AreBytes (take n xs)
take-AreBytes zero xs small = tt
take-AreBytes (suc n) [] small = tt
take-AreBytes (suc n) (x ∷ xs) (first, rest) = (first, take-AreBytes n xs rest)

drop-AreBytes : (n : ℕ) (xs : List ℕ) → AreBytes xs → AreBytes (drop n xs)
drop-AreBytes zero xs small = small
drop-AreBytes (suc n) [] small = tt
drop-AreBytes (suc n) (x ∷ xs) (first, rest) = drop-AreBytes n xs rest

poke-IsBytes : (m : Memory) (p : Ptr) (v : ℕ) → IsBytes m → v < 256 → IsBytes (poke m p v)
poke-IsBytes m p v bytes small a = ground (arith, bytes a)

copy_in-IsBytes :
    (m : Memory) (p : Ptr) (xs : List ℕ) → IsBytes m → AreBytes xs → IsBytes (copy_in m p xs)
copy_in-IsBytes m p [] bytes small = bytes
copy_in-IsBytes m p (x ∷ xs) bytes (first, rest) =
    copy_in-IsBytes (poke m p x) (p + 1) xs (poke-IsBytes m p x bytes first) rest

write32-IsBytes : (m : Memory) (p : Ptr) (v : ℕ) → IsBytes m → IsBytes (write32 m p v)
write32-IsBytes m p v bytes =
    poke-IsBytes _ (p + 3) _
      (poke-IsBytes _ (p + 2) _
        (poke-IsBytes _ (p + 1) _ (poke-IsBytes m p _ bytes (omega arith)) (omega arith))
        (omega arith))
      (omega arith)

-- The functions that are nowhere defined, if they keep the device a memory of bytes.
abbrev pub KeepBytes : Clusters → Type 0
KeepBytes clusters =
    (m : Memory) (self : Fs) (inode : Ptr) (n : ℕ) (after : Memory)
    → IsBytes m
    → (clusters.add_clusters m self inode n ≡ ok after → IsBytes after)
      × (clusters.remove_clusters m self inode n ≡ ok after → IsBytes after)

-- When it returns, a memory of bytes is returned.
abbrev Keeps : Outcome Memory → Type 0
Keeps run = (after : Memory) → run ≡ ok after → IsBytes after

returned : (m : Memory) → IsBytes m → Keeps (ok m)
returned m bytes after run = subst IsBytes (ok-injective run) bytes

branches : (b : Bool) (x y : Outcome Memory) → Keeps x → Keeps y → Keeps (if b then x else y)
branches true a b y n = y
branches false a b y n = n

steps :
    {A : Type 0} (run : Outcome A) (next : A → Outcome Memory)
    → ((x : A) → run ≡ ok x → Keeps (next x))
    → Keeps (run >>= next)
steps run next keeps after result =
    let (x, first, rest) = >>=-eq-ok run next result in keeps x first after rest

module _ (clusters : Clusters) (keep : KeepBytes clusters) (self : Fs) (inode : Ptr) where
  change_clusters-Keeps :
      (m : Memory) (new_clusters curr_clusters : ℕ)
      → IsBytes m
      → Keeps (change_clusters clusters m self inode new_clusters curr_clusters)
  unfolding change_clusters
  change_clusters-Keeps m new_clusters curr_clusters bytes =
      branches (ltb curr_clusters new_clusters) _ _
        (λ after. (keep m self inode (new_clusters - curr_clusters) after bytes).0)
        (λ after. (keep m self inode (curr_clusters - new_clusters) after bytes).1)

  resize_inode_data-Keeps :
      (m : Memory) (new_size : ℕ)
      → IsBytes m
      → Keeps (resize_inode_data clusters m self inode new_size)
  unfolding resize_inode_data
  resize_inode_data-Keeps m new_size bytes =
      let new_clusters = ceil_div new_size self.block_size in
      let curr_clusters = ceil_div (inode_at m inode).size self.block_size in
      branches (self.block_size == 0) _ _ (λ after run. cc)
        (branches (new_clusters == curr_clusters) _ _ (returned m bytes) (
          steps (change_clusters clusters m self inode new_clusters curr_clusters) _ λ m' run.
            returned _ (
              write32-IsBytes m' (inode + 4) (u32 new_size)
                (change_clusters-Keeps m new_clusters curr_clusters bytes m' run))))

  write_loop-Keeps :
      (buff : List ℕ) (fuel : ℕ) (m : Memory) (blocks_offset size_copied : ℕ) (target : Ptr) (n : ℕ)
      → IsBytes m
      → AreBytes buff
      → Keeps (write_loop self inode buff fuel m blocks_offset size_copied target n)
  unfolding write_loop
  write_loop-Keeps buff zero m blocks_offset size_copied target n bytes small = λ after run. cc
  write_loop-Keeps buff (suc fuel) m blocks_offset size_copied target n bytes small =
      let m' = copy_in m target (take n (drop size_copied buff)) in
      let bytes' =
        copy_in-IsBytes m target _ bytes
          (take-AreBytes n _ (drop-AreBytes size_copied buff small)) in
      branches (ltb (size_copied + n) (length buff)) _ _
        (steps (data_block m' self inode (blocks_offset + 1)) _ λ next found.
          write_loop-Keeps buff fuel m' (blocks_offset + 1) (size_copied + n) next
            (next_size self (size_copied + n) (length buff)) bytes' small)
        (returned m' bytes')

  -- A write of bytes to a device of bytes leaves one.
  pub write_inode_data-IsBytes :
      (m after : Memory) (buff : List ℕ) (offset : ℕ)
      → IsBytes m
      → AreBytes buff
      → write_inode_data clusters m self inode buff offset ≡ ok after
      → IsBytes after
  unfolding write_inode_data make_room
  write_inode_data-IsBytes m after buff offset bytes small =
      let blocks_offset = offset / self.block_size in
      let room = make_room clusters m self inode (offset + length buff) in
      let keeps_room : Keeps room =
        branches (ltb (inode_at m inode).size (offset + length buff)) _ _
          (resize_inode_data-Keeps m (offset + length buff) bytes) (returned m bytes) in
      branches (self.block_size == 0) _ _ (λ after run. cc)
        (steps room _ λ m' made. steps (data_block m' self inode blocks_offset) _ λ first found.
          write_loop-Keeps buff (length buff + 1) m' blocks_offset 0
            (first + (offset - blocks_offset * self.block_size)) _ (keeps_room m' made) small)
        after
