-- ===== src/Tests/Stores.antt =====
-- The theorem on stores at the device of the tests: two files, one of them a directory.
use fuse_ext.Base.{
  Ptr, ◌⊎◌, inl, inr, ◌*◌, List, ap, ℕ, zero, suc, ◌+◌, ◌/◌, ◌<◌, ◌≤◌, ◌≡◌, refl, ◌∙◌, [], ◌∷◌,
  Memory, arith, ok,
}
use fuse_ext.Ext2.Layout.{inode_at}
use fuse_ext.Ext2.Data.{read_inode_data}
use fuse_ext.Ext2.Data.Read.{direct_block}
use fuse_ext.Ext2.Data.Write.Loop.{position}
use fuse_ext.Ext2.Data.Store.{IsLayout, held, stored, Write, put_all, write_all}
use fuse_ext.Ext2.Data.Store.Run.{write_all-read_inode_data}
use fuse_ext.Tests.Disk.{disk, fs, buff, root_inode, hello_inode, hello_block, no_clusters}

root_block : (b : ℕ) → b < 1 → (inode_at disk root_inode).block b ≡ 8
root_block zero h = refl
root_block (suc b) h = absurd (omega arith)

-- The inodes of the device.
abbrev pub IsThere : Ptr → Type 0
IsThere d = (d ≡ root_inode) ⊎ (d ≡ hello_inode)

-- The block behind an index of one of the files.
there_block :
    (d : Ptr) (b : ℕ)
    → IsThere d
    → b * 1024 < (inode_at disk d).size
    → ((d ≡ root_inode) × (b < 1) × ((inode_at disk d).block b ≡ 8))
      ⊎ ((d ≡ hello_inode) × (b < 2) × ((inode_at disk d).block b ≡ 9 + b))
there_block d b (inl at_root) below =
    let size : (inode_at disk d).size ≡ 1024 = ap (λ (t : Ptr). (inode_at disk t).size) at_root in
    let few : b < 1 = omega arith in
    inl (at_root, few, ap (λ (t : Ptr). (inode_at disk t).block b) at_root ∙ root_block b few)
there_block d b (inr at_file) below =
    let size : (inode_at disk d).size ≡ 1500 = ap (λ (t : Ptr). (inode_at disk t).size) at_file in
    let few : b < 2 = omega arith in
    inr (at_file, few, ap (λ (t : Ptr). (inode_at disk t).block b) at_file ∙ hello_block b few)

there_position :
    (d : Ptr) (k : ℕ)
    → IsThere d
    → k < (inode_at disk d).size
    → 8192 ≤ position 1024 (direct_block disk fs d) k
there_position d k there h = elim (there_block d (k / 1024) there (omega arith)) [
  | inl (at, few, block) ↦ omega (arith, block)
  | inr (at, few, block) ↦ omega (arith, block)
]

there_inode : (d : Ptr) → IsThere d → d ≤ hello_inode
there_inode d (inl e) = omega (arith, e)
there_inode d (inr e) = omega (arith, e)

pub disk-IsLayout : IsLayout disk fs IsThere
disk-IsLayout = record {
  pos = omega arith;
  direct = λ d there b below. elim (there_block d b there below) [
    | inl (at, few, block) ↦
        (omega arith, record { number = omega arith; offset = omega arith }, omega arith)
    | inr (at, few, block) ↦
        (omega arith, record { number = omega arith; offset = omega arith }, omega arith)
  ];
  apart = λ d e b c there there' hb hc same. elim (there_block d b there hb) [
    | inl (at, few, block) ↦ elim (there_block e c there' hc) [
      | inl (at', few', block') ↦ (omega arith, omega arith)
      | inr (at', few', block') ↦ absurd (omega arith)
    ]
    | inr (at, few, block) ↦ elim (there_block e c there' hc) [
      | inl (at', few', block') ↦ absurd (omega arith)
      | inr (at', few', block') ↦ (omega arith, omega arith)
    ]
  ];
  clear = λ d e a there there' inside k lo hi same.
      let far = there_position d k there hi in
      let near = there_inode e there' in absurd (omega arith);
}

abbrev writes : List Write
writes =
    record { file = hello_inode; offset = 1022; buff = buff }
    ∷ record { file = root_inode; offset = 100; buff = 7 ∷ [] }
    ∷ record { file = hello_inode; offset = 1023; buff = 9 ∷ [] }
    ∷ []

store_example :
    (after : Memory) × (write_all no_clusters disk fs writes ≡ ok after)
    × IsLayout after fs IsThere
    × ((inode_at after hello_inode).size ≡ (inode_at disk hello_inode).size)
    × (read_inode_data after fs hello_inode 1021 6
        ≡ ok (stored (put_all (held disk fs) writes) hello_inode 1021 6))
store_example =
    write_all-read_inode_data no_clusters fs IsThere disk writes hello_inode 1021 6 disk-IsLayout
      (
        (inr refl, omega arith, omega arith),
        ((inl refl, omega arith, omega arith), ((inr refl, omega arith, omega arith), tt)),
      )
      (inr refl) (omega arith) (omega arith)

-- What that store holds there.
stored_run : stored (put_all (held disk fs) writes) hello_inode 1021 6 ≡ 0 ∷ 1 ∷ 9 ∷ 3 ∷ 4 ∷ 0 ∷ []
stored_run = refl
