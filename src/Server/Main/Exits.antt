-- ===== src/Server/Main/Exits.antt =====
-- When the server ends at its start, and with which status.
use fuse_ext.Base.{
  ℕ, ◌≡◌, ◌≢◌, ◌↔◌, ◌⊎◌, inl, inr, refl, sym, ap, subst, ◌∙◌, true, false, Bool-cases, ne→==,
  Option, none, some, List, Memory, read16, Outcome, ok, ok-injective, ◌>>=◌, >>=-eq-ok, arith,
}
use fuse_ext.Rpc.{Request}
use fuse_ext.Log.{log_create, log_info, Written}
use fuse_ext.Ext2.Geometry.{Fs, ext2_super_magic, create, get_number_of_block_group}
use fuse_ext.Ext2.Resize.{Clusters}
use fuse_ext.Server.{
  Host, Start, invalid_device_path, invalid_device_descriptor, not_a_file, mmap_failed, not_ext2,
  running, is_regular, mounted, server_create,
}
use fuse_ext.Server.Main.{
  fs_message, turns_loop, server_run_lines, Status, exited, runs_on, exit_success, exit_failure,
  main,
}
use fuse_ext.Server.Main.Turns.{server_log}

-- A call at the start fails, or the device is no regular file.
pub data IsRefused (host : Host) : Type 0 where
  no_path : host.device_desc ≡ none → IsRefused host
  no_descriptor : (fd : ℕ) → host.device_desc ≡ some fd → host.st_mode ≡ none → IsRefused host
  irregular :
      (fd mode : ℕ)
      → host.device_desc ≡ some fd
      → host.st_mode ≡ some mode
      → is_regular mode ≡ false
      → IsRefused host
  unmapped :
      (fd mode : ℕ)
      → host.device_desc ≡ some fd
      → host.st_mode ≡ some mode
      → is_regular mode ≡ true
      → host.mapping ≡ none
      → IsRefused host

-- A regular file is mapped, without the magic number of ext2 at address 1080.
pub record IsForeign (host : Host) : Type 0 where
  pub fd : ℕ
  pub mode : ℕ
  pub device : Memory
  pub opened : host.device_desc ≡ some fd
  pub stated : host.st_mode ≡ some mode
  pub regular : is_regular mode ≡ true
  pub mapped : host.mapping ≡ some device
  pub magic : read16 device 1080 ≢ ext2_super_magic

-- What is known of the host by the way in which the start ends.
abbrev Kind : Host → Start → Type 0
Kind host invalid_device_path = IsRefused host
Kind host invalid_device_descriptor = IsRefused host
Kind host not_a_file = IsRefused host
Kind host mmap_failed = IsRefused host
Kind host not_ext2 = IsForeign host
Kind host (running fs m) = Unit

create-foreign : (m : Memory) → read16 m 1080 ≢ ext2_super_magic → create m 0 ≡ ok none
unfolding create
create-foreign m other = rw (ne→== _ _ other)

foreign_magic : (m : Memory) → create m 0 ≡ ok none → read16 m 1080 ≢ ext2_super_magic
unfolding create get_number_of_block_group
foreign_magic m run same = ground arith

host_of : Option ℕ → Option ℕ → Option Memory → Host
host_of d s p = record { device_desc = d; st_mode = s; mapping = p }

by_mount :
    (host : Host) (m : Memory) (o : Option Fs) {start : Start}
    → (o ≡ none → IsForeign host)
    → mounted m o ≡ start
    → Kind host start
by_mount host m none foreign e = subst (Kind host) e (foreign refl)
by_mount host m (some fs) foreign e = subst (Kind host) e tt

server_create-Kind :
    (d s : Option ℕ) (p : Option Memory) {start : Start}
    → server_create (host_of d s p) ≡ ok start
    → Kind (host_of d s p) start
unfolding server_create host_of
server_create-Kind none s p run = subst (Kind (host_of none s p)) (ok-injective run) (no_path refl)
server_create-Kind (some fd) none p run =
    subst (Kind (host_of (some fd) none p)) (ok-injective run) (no_descriptor fd refl refl)
server_create-Kind (some fd) (some mode) none {start} run = elim (Bool-cases (is_regular mode)) [
  | inl e ↦
      let early : ok mmap_failed ≡ ok start = sym (rw e refl) ∙ run in
      subst (Kind (host_of (some fd) (some mode) none)) (ok-injective early)
        (unmapped fd mode refl refl e refl)
  | inr e ↦
      let early : ok not_a_file ≡ ok start = sym (rw e refl) ∙ run in
      subst (Kind (host_of (some fd) (some mode) none)) (ok-injective early)
        (irregular fd mode refl refl e)
]
server_create-Kind (some fd) (some mode) (some m) {start} run =
    elim (Bool-cases (is_regular mode)) [
      | inl e ↦
          let at : (create m 0 >>= λ o. ok (mounted m o)) ≡ ok start = sym (rw e refl) ∙ run in
          let (o, made, both) = >>=-eq-ok (create m 0) _ at in
          by_mount (host_of (some fd) (some mode) (some m)) m o
            (λ missing. record {
              fd = fd;
              mode = mode;
              device = m;
              opened = refl;
              stated = refl;
              regular = e;
              mapped = refl;
              magic = foreign_magic m (made ∙ ap ok missing);
            })
            (ok-injective both)
      | inr e ↦
          let early : ok not_a_file ≡ ok start = sym (rw e refl) ∙ run in
          subst (Kind (host_of (some fd) (some mode) (some m))) (ok-injective early)
            (irregular fd mode refl refl e)
    ]

module _ (clusters : Clusters) (host : Host) (pid : ℕ) (clock : ℕ → List ℕ × ℕ)
    (turns : List (List Request)) (out : Written) where
  refused_exit : IsRefused host → main clusters host pid clock turns out ≡ ok (exited 0 out)
  unfolding main log_create server_create
  refused_exit (no_path a) = rw a
  refused_exit (no_descriptor fd a b) = rw (a, b)
  refused_exit (irregular fd mode a b c) = rw (a, b, c)
  refused_exit (unmapped fd mode a b c d) = rw (a, b, c, d)

  foreign_exit :
      {lines : Written}
      → IsForeign host
      → log_info (server_log pid) (clock 0).0 (clock 0).1 fs_message out ≡ ok lines
      → main clusters host pid clock turns out ≡ ok (exited 1 lines)
  unfolding main log_create server_create
  foreign_exit h logs =
      rw (h.opened, h.stated, h.regular, h.mapped, create-foreign h.device h.magic, logs)

  -- The ways to end: refused, with nothing logged; or with one line, on a device without the magic
  -- number.
  abbrev pub IsEnd : ℕ → Written → Type 0
  IsEnd status lines =
      (IsRefused host × (status ≡ 0) × (lines ≡ out))
      ⊎ (IsForeign host
          × (status ≡ 1)
          × (log_info (server_log pid) (clock 0).0 (clock 0).1 fs_message out ≡ ok lines))

  abbrev after_start : Start → Outcome Status
  after_start start = elim start [
    | invalid_device_path ↦ ok (exited exit_success out)
    | invalid_device_descriptor ↦ ok (exited exit_success out)
    | not_a_file ↦ ok (exited exit_success out)
    | mmap_failed ↦ ok (exited exit_success out)
    | not_ext2 ↦ (do
      out1 ← log_info (server_log pid) (clock 0).0 (clock 0).1 fs_message out
      ok (exited exit_failure out1))
    | running fs m ↦ (do
      out1 ← log_info (server_log pid) (clock 0).0 (clock 0).1 fs_message out
      out2 ← server_run_lines (server_log pid) clock out1
      r ← turns_loop clusters m fs turns
      ok (runs_on r.0 r.1 out2))
  ]

  refused-IsEnd :
      {status : ℕ} {lines : Written}
      → IsRefused host
      → ok (exited 0 out) ≡ ok (exited status lines)
      → IsEnd status lines
  refused-IsEnd refused e = inl (refused, cc, cc)

  Kind-IsEnd :
      (start : Start) {status : ℕ} {lines : Written}
      → Kind host start
      → after_start start ≡ ok (exited status lines)
      → IsEnd status lines
  Kind-IsEnd invalid_device_path known e = refused-IsEnd known e
  Kind-IsEnd invalid_device_descriptor known e = refused-IsEnd known e
  Kind-IsEnd not_a_file known e = refused-IsEnd known e
  Kind-IsEnd mmap_failed known e = refused-IsEnd known e
  Kind-IsEnd not_ext2 known e =
      let (out1, logs, both) = >>=-eq-ok (log_info (server_log pid) _ _ fs_message out) _ e in
      inr (known, cc, logs ∙ ap ok cc)
  Kind-IsEnd (running fs m) known e =
      let (out1, logs, e1) = >>=-eq-ok (log_info (server_log pid) _ _ fs_message out) _ e in
      let (out2, lines, e2) = >>=-eq-ok (server_run_lines (server_log pid) clock out1) _ e1 in
      let (r, looped, e3) = >>=-eq-ok (turns_loop clusters m fs turns) _ e2 in cc

  main-IsEnd :
      {status : ℕ} {lines : Written}
      → main clusters host pid clock turns out ≡ ok (exited status lines)
      → IsEnd status lines
  unfolding main log_create host_of
  main-IsEnd run =
      let (start, began, next) = >>=-eq-ok (server_create host) after_start run in
      Kind-IsEnd start (server_create-Kind host.device_desc host.st_mode host.mapping began) next

  -- The server ends, with a status and with what it has logged by then, in two ways only, and then
  -- it does: with EXIT_SUCCESS and nothing logged exactly when the device cannot be opened, its
  -- status cannot be read, it is no regular file or it cannot be mapped; with EXIT_FAILURE and one
  -- line logged, if the log can be written, exactly when it is a regular file that is mapped and has
  -- no magic number of ext2 at address 1080. It handles no request then.
  pub main-exited_iff :
      (status : ℕ) (lines : Written)
      → (main clusters host pid clock turns out ≡ ok (exited status lines)) ↔ IsEnd status lines
  main-exited_iff status lines = (
    main-IsEnd,
    λ end. elim end [
      | inl (refused, at, same) ↦ refused_exit refused ∙ cc
      | inr (foreign, at, logs) ↦ foreign_exit foreign logs ∙ cc
    ],
  )
