-- ===== src/Server/Main.antt =====
-- `ext2_server_run` and `main` of fuse_ext2_server/src/ext2_server.c: the start, the lines of the log
-- and the endless dispatch loop, after so many of its turns. The requests that each turn brings,
-- and the time and thread of each call of the log, are parameters.
pub mod Turns
pub mod Exits
use fuse_ext.Base.{
  ℕ, ◌≤◌, ◌≡◌, refl, sym, ap, ◌∙◌, true, none, List, [], ◌∷◌, ◌++◌, length, Memory, Outcome, ok,
  fault, out_of_fuel, ◌>>=◌, >>=-eq-ok, ok-injective, deref, arith,
}
use fuse_ext.Rpc.{Request, Response}
use fuse_ext.Log.Lines.{log_write_in_level-fits}
use fuse_ext.Log.{Log, debug, info, log_create, log_info, Written}
use fuse_ext.Ext2.Geometry.{Fs}
use fuse_ext.Ext2.Resize.{Clusters}
use fuse_ext.Server.{
  Host, invalid_device_path, invalid_device_descriptor, not_a_file, mmap_failed, not_ext2, running,
  server_create, serve, serve_all,
}
use fuse_ext.Server.Started.{IsStarted, server_create_iff}

abbrev pub server_name : List ℕ
server_name = b'E' ∷ b'x' ∷ b't' ∷ b'2' ∷ b' ' ∷ b'S' ∷ b'e' ∷ b'r' ∷ b'v' ∷ b'e' ∷ b'r' ∷ []

abbrev pub fs_message : List ℕ
fs_message =
    b'[' ∷ b'+' ∷ b']' ∷ b' ' ∷ b'I' ∷ b'n' ∷ b'i' ∷ b't' ∷ b'i' ∷ b'a' ∷ b'l' ∷ b'i' ∷ b'z' ∷ b'e'
    ∷ b' ' ∷ b'E' ∷ b'x' ∷ b't' ∷ b'2' ∷ b' ' ∷ b'F' ∷ b'S' ∷ b' ' ∷ b'.' ∷ b'.' ∷ b'.' ∷ b' ' ∷ []

abbrev pub server_message : List ℕ
server_message =
    b'[' ∷ b'+' ∷ b']' ∷ b' ' ∷ b'I' ∷ b'n' ∷ b'i' ∷ b't' ∷ b'i' ∷ b'a' ∷ b'l' ∷ b'i' ∷ b'z' ∷ b'e'
    ∷ b' ' ∷ b'R' ∷ b'P' ∷ b'C' ∷ b' ' ∷ b'S' ∷ b'e' ∷ b'r' ∷ b'v' ∷ b'e' ∷ b'r' ∷ b' ' ∷ b'.'
    ∷ b'.' ∷ b'.' ∷ b' ' ∷ []

abbrev pub listening_message : List ℕ
listening_message =
    b'[' ∷ b'+' ∷ b']' ∷ b' ' ∷ b'L' ∷ b'i' ∷ b's' ∷ b't' ∷ b'e' ∷ b'n' ∷ b'i' ∷ b'n' ∷ b'g' ∷ b' '
    ∷ b'.' ∷ b'.' ∷ b'.' ∷ b' ' ∷ []

-- `for (;;) dispatch_run(...)`: the device and the responses after these turns.
unfoldable pub turns_loop :
    Clusters → Memory → Fs → List (List Request) → Outcome (Memory × List (List Response))
turns_loop clusters m fs [] = ok (m, [])
turns_loop clusters m fs (rs ∷ turns) = do
  first ← serve_all clusters m fs rs
  rest ← turns_loop clusters first.0 fs turns
  ok (rest.0, first.1 ∷ rest.1)

-- The lines that `ext2_server_run` writes before its loop.
unfoldable pub server_run_lines : Log → (ℕ → List ℕ × ℕ) → Written → Outcome Written
server_run_lines log clock out = do
  out1 ← log_info log (clock 1).0 (clock 1).1 server_message out
  log_info log (clock 2).0 (clock 2).1 listening_message out1

-- The process has ended with a status and with what it has logged, or it runs on.
pub data Status : Type 0 where
  exited : ℕ → Written → Status
  runs_on : Memory → List (List Response) → Written → Status

abbrev pub exit_success : ℕ
exit_success = 0

abbrev pub exit_failure : ℕ
exit_failure = 1

-- `ext2_server_create` logs before `ext2_create`, which ends the process itself when the magic
-- number is missing.
unfoldable pub main :
    Clusters
    → Host
    → (pid : ℕ) (clock : ℕ → List ℕ × ℕ) → List (List Request)
    → Written
    → Outcome Status
unfolding turns_loop server_run_lines
main clusters host pid clock turns out = do
  log ← deref (log_create none server_name true debug pid)
  start ← server_create host
  elim start [
    | invalid_device_path ↦ ok (exited exit_success out)
    | invalid_device_descriptor ↦ ok (exited exit_success out)
    | not_a_file ↦ ok (exited exit_success out)
    | mmap_failed ↦ ok (exited exit_success out)
    | not_ext2 ↦ (do
      out1 ← log_info log (clock 0).0 (clock 0).1 fs_message out
      ok (exited exit_failure out1))
    | running fs m ↦ (do
      out1 ← log_info log (clock 0).0 (clock 0).1 fs_message out
      out2 ← server_run_lines log clock out1
      r ← turns_loop clusters m fs turns
      ok (runs_on r.0 r.1 out2))
  ]
