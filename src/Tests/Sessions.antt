-- ===== src/Tests/Sessions.antt =====
-- What the theorems on sessions ask for, at the device of the tests.
use fuse_ext.Base.{
  u32, ◌≢◌, some, Ptr, inr, List, ap, ℕ, zero, suc, ◌+◌, ◌<◌, ◌≡◌, refl, ◌∙◌, [], ◌∷◌, arith,
}
use fuse_ext.System.Session.Paths.{AreClear, IsNamed}
use fuse_ext.Strings.Split.Laws.{fields}
use fuse_ext.Ext2.Groups.Laws.{start_of}
use fuse_ext.Ext2.Directory.{InodeEntry}
use fuse_ext.Ext2.Directory.Kept.{FitBlocks, block_fit, done_fit, next_fit, stop_fit}
use fuse_ext.Ext2.Directory.First.{at_head}
use fuse_ext.Ext2.Directory.Kept.Lookup.{GroupsOn, IsPath, IsListed, step_on, here_on}
use fuse_ext.Ext2.Layout.{DirectoryEntry, directory_entry_at}
use fuse_ext.Tests.Stores.{disk-IsLayout}
use fuse_ext.Ext2.Directory.{list_inode}
use fuse_ext.Ext2.Geometry.{get_block, has_superblock}
use fuse_ext.Ext2.Groups.{get_inode, get_block_group}
use fuse_ext.Ext2.BlockMap.{get_inode_block_entry}
use fuse_ext.Ext2.Layout.{inode_at, has_mode_flag}
use fuse_ext.Ext2.Data.Read.{direct_block}
use fuse_ext.Ext2.Data.Write.Loop.{position}
use fuse_ext.Ext2.Data.Store.{IsLayout}
use fuse_ext.Tests.Disk.{hello_position, hello, disk, fs, root_inode, hello_inode}

root_block : (b : ℕ) → b < 1 → (inode_at disk root_inode).block b ≡ 8
root_block zero h = refl
root_block (suc b) h = absurd (omega arith)

-- The files, and the addresses below them.
abbrev pub IsFile : Ptr → Type 0
IsFile d = d ≡ hello_inode

abbrev pub IsBelow : Ptr → Type 0
IsBelow a = a < 9216

pub hello-IsLayout : IsLayout disk fs IsFile
hello-IsLayout = record {
  pos = omega arith;
  direct = λ p f. disk-IsLayout.direct p (inr f);
  apart = λ p q b c f g. disk-IsLayout.apart p q b c (inr f) (inr g);
  clear = λ p q a f g. disk-IsLayout.clear p q a (inr f) (inr g);
}

pub hello-AreClear : AreClear disk fs IsFile IsBelow
hello-AreClear a q below f k lo hi same =
    let size : (inode_at disk q).size ≡ 1500 = ap (λ (t : Ptr). (inode_at disk t).size) f in
    let far = hello_position k (omega arith) in
    let there : a ≡ position 1024 (direct_block disk fs hello_inode) k =
      same ∙ ap (λ (t : Ptr). position 1024 (direct_block disk fs t) k) f in
    absurd (omega arith)

no_block : (i : ℕ) → i < 11 → (inode_at disk root_inode).block (suc i) ≡ 0
no_block zero h = refl
no_block (suc zero) h = refl
no_block (suc (suc zero)) h = refl
no_block (suc (suc (suc zero))) h = refl
no_block (suc (suc (suc (suc zero)))) h = refl
no_block (suc (suc (suc (suc (suc zero))))) h = refl
no_block (suc (suc (suc (suc (suc (suc zero)))))) h = refl
no_block (suc (suc (suc (suc (suc (suc (suc zero))))))) h = refl
no_block (suc (suc (suc (suc (suc (suc (suc (suc zero)))))))) h = refl
no_block (suc (suc (suc (suc (suc (suc (suc (suc (suc zero))))))))) h = refl
no_block (suc (suc (suc (suc (suc (suc (suc (suc (suc (suc zero)))))))))) h = refl
no_block (suc (suc (suc (suc (suc (suc (suc (suc (suc (suc (suc i))))))))))) h =
    absurd (omega arith)

some-injective : {a b : ℕ} → some a ≡ some b → a ≡ b
some-injective h = cc

root_blocks_below :
    (index b i : ℕ)
    → index < 12
    → (inode_at disk root_inode).block index ≢ 0
    → get_block disk fs ((inode_at disk root_inode).block index) ≡ some b
    → i < 1024
    → b + i < 9216
unfolding get_block
root_blocks_below zero b i few some_number found h =
    let at : 8192 ≡ b = some-injective found in omega arith
root_blocks_below (suc index) b i few some_number found h =
    absurd (some_number (no_block index (omega arith)))

pub disk-GroupsOn : GroupsOn disk fs IsBelow
unfolding get_block
disk-GroupsOn = record { superblock = λ i h. omega arith; descriptor = below }
  where
    below :
        (g d i : ℕ)
        → g < 1
        → get_block disk fs (u32 (start_of disk fs g + 1)) ≡ some d
        → i < 32
        → d + i < 9216
    below zero d i there found h = let at : 2048 ≡ d = some-injective found in omega arith
    below (suc g) d i there found h = absurd (omega arith)

abbrev hello_record : DirectoryEntry
hello_record = directory_entry_at disk 8192

root_fits : FitBlocks disk fs root_inode 1 0 (hello_record ∷ [])
unfolding get_block
root_fits =
    block_fit {n = 8} {b = 8192} {ds = hello_record ∷ []} {rest = []} (omega arith) refl
      (λ e. omega arith) refl
      (next_fit refl (omega arith) (omega arith) (omega arith) (stop_fit (omega arith))) done_fit
      refl

abbrev hello_name : List ℕ
hello_name = b'h' ∷ b'e' ∷ b'l' ∷ b'l' ∷ b'o' ∷ []

abbrev pub hello_entry : InodeEntry
hello_entry = record { inode_index = 12; name = hello_name; inode = hello_inode }

hello-IsPath : IsPath disk fs IsBelow root_inode (hello_name ∷ []) hello_inode
unfolding list_inode has_mode_flag get_inode_block_entry get_inode get_block_group has_superblock
    get_block
hello-IsPath =
    step_on (hello_entry ∷ []) hello_entry (λ i h. omega arith) root_blocks_below refl
      (λ e. omega arith) root_fits refl (at_head refl) refl here_on

pub hello-IsNamed : IsNamed disk fs IsBelow root_inode hello hello_inode
unfolding fields
hello-IsNamed = (hello_name, refl, hello-IsPath)

pub root-IsNamed : IsNamed disk fs IsBelow root_inode (b'/' ∷ []) root_inode
unfolding fields
root-IsNamed = ([], refl, here_on)

pub root-IsListed : IsListed disk fs IsBelow root_inode (hello_entry ∷ [])
unfolding list_inode has_mode_flag get_inode_block_entry get_inode get_block_group has_superblock
    get_block
root-IsListed = record {
  records = hello_record ∷ [];
  inode = λ i h. omega arith;
  blocks = root_blocks_below;
  directory = refl;
  sized = λ e. omega arith;
  fit = root_fits;
  listed = refl;
}
