-- ===== src/Server/Started.antt =====
-- When the server runs.
use fuse_ext.Base.{
  ℕ, ◌≡◌, ◌↔◌, refl, sym, subst, ap, ◌∙◌, true, Bool-cases, inl, inr, Option, none, some, Memory,
  ok, ok-injective, ◌>>=◌, >>=-eq-ok,
}
use fuse_ext.Ext2.Geometry.{Fs, create}
use fuse_ext.Ext2.Geometry.Laws.{IsMounted, create-IsMounted}
use fuse_ext.Ext2.Geometry.Mount.{IsMounted-create}
use fuse_ext.Server.{Host, running, mmap_failed, not_a_file, is_regular, mounted, server_create}

-- Every call at the start succeeded, on a regular file that holds the file system.
abbrev pub IsStarted : Host → Fs → Memory → Type 0
IsStarted host fs m =
    (fd : ℕ) × (mode : ℕ) × (host.device_desc ≡ some fd)
    × (host.st_mode ≡ some mode)
    × (is_regular mode ≡ true)
    × (host.mapping ≡ some m)
    × IsMounted m fs
    × (fs.device ≡ 0)

mounted-running :
    {m m' : Memory} (o : Option Fs) {fs : Fs}
    → mounted m o ≡ running fs m'
    → (o ≡ some fs) × (m ≡ m')
mounted-running none e = cc
mounted-running (some fs') e = (cc, cc)

module _ (fs : Fs) (m : Memory) where
  started :
      (device_desc st_mode : Option ℕ) (mapping : Option Memory)
      → server_create (record { device_desc = device_desc; st_mode = st_mode; mapping = mapping })
        ≡ ok (running fs m)
      → IsStarted (record { device_desc = device_desc; st_mode = st_mode; mapping = mapping }) fs m
  unfolding server_create
  started none s p run = cc
  started (some fd) none p run = cc
  started (some fd) (some mode) none run = elim (Bool-cases (is_regular mode)) [
    | inl e ↦ let early : ok mmap_failed ≡ ok (running fs m) = sym (rw e refl) ∙ run in cc
    | inr e ↦ let early : ok not_a_file ≡ ok (running fs m) = sym (rw e refl) ∙ run in cc
  ]
  started (some fd) (some mode) (some m') run = elim (Bool-cases (is_regular mode)) [
    | inl e ↦
        let at : (create m' 0 >>= λ o. ok (mounted m' o)) ≡ ok (running fs m) =
          sym (rw e refl) ∙ run in
        let (o, made, both) = >>=-eq-ok (create m' 0) _ at in
        let (found, same) = mounted-running o (ok-injective both) in
        let (is_mounted, device) = create-IsMounted m' 0 (made ∙ ap ok found) in
        (fd, mode, refl, refl, e, ap some same, subst (λ t. IsMounted t fs) same is_mounted, device)
    | inr e ↦ let early : ok not_a_file ≡ ok (running fs m) = sym (rw e refl) ∙ run in cc
  ]

-- The server runs, with a file system and a memory, exactly when the device can be opened and is a
-- regular file, the memory is its mapping, and the file system is mounted at the start of the
-- memory: the magic number is there, a group has at least one block, and every field is the one
-- that the superblock gives.
pub server_create_iff :
    (host : Host) (fs : Fs) (m : Memory)
    → (server_create host ≡ ok (running fs m)) ↔ IsStarted host fs m
unfolding server_create
server_create_iff host fs m = (
  λ run. started fs m host.device_desc host.st_mode host.mapping run,
  λ (fd, mode, opened, known, regular, mapped, is_mounted, device).
      rw (opened, known, regular, mapped) (rw (IsMounted-create m fs is_mounted device) refl),
)
