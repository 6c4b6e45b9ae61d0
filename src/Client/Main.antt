-- ===== src/Client/Main.antt =====
-- `main` of fuse_ext2_client/src/fuse_client.c: the table of the operations, the connection to the
-- server and the start of FUSE. fuse_main belongs to FUSE and is a parameter, as is what the
-- dispatch loop finds: at each turn, whether the client is connected.
use fuse_ext.Base.{
  ℕ, Bool, true, false, Option, none, List, [], ◌∷◌, Outcome, ok, out_of_fuel, ◌>>=◌, deref,
}
use fuse_ext.Base.Int.{ℤ}
use fuse_ext.Rpc.{Request, GetAttrResponse, ReadResponse}
use fuse_ext.Log.{debug, log_create, log_info, Written}
use fuse_ext.Client.{Stat, fuse_getattr, fuse_readdir, fuse_open, fuse_read, fuse_write}

-- The fields of struct fuse_operations that are set.
pub record FuseOperations : Type 0 where
  pub getattr : List ℕ → Stat → Request × (List (Option GetAttrResponse) → Outcome (ℤ × Stat))
  pub readdir :
      List ℕ
      → List (List ℕ)
      → Request × (List (Option (List (List ℕ))) → Outcome (ℤ × List (List ℕ)))
  pub open_file : List ℕ → ℤ
  pub read : List ℕ → List ℕ → ℕ → Request × (List (Option ReadResponse) → Outcome (ℤ × List ℕ))
  pub write : List ℕ → List ℕ → ℕ → Request × (List (Option Bool) → Outcome (ℤ × Unit {0}))

abbrev pub ext2_operations : FuseOperations
ext2_operations = record {
  getattr = fuse_getattr;
  readdir = fuse_readdir;
  open_file = fuse_open;
  read = fuse_read;
  write = fuse_write;
}

-- `while (!is_connected) dispatch_run(...)`: what the loop finds after it is connected is left.
unfoldable pub connect : List Bool → Outcome (List Bool)
connect [] = out_of_fuel
connect (true ∷ turns) = ok turns
connect (false ∷ turns) = connect turns

abbrev pub client_name : List ℕ
client_name = b'E' ∷ b'x' ∷ b't' ∷ b'2' ∷ b' ' ∷ b'C' ∷ b'l' ∷ b'i' ∷ b'e' ∷ b'n' ∷ b't' ∷ []

abbrev pub initialize_message : List ℕ
initialize_message =
    b'[' ∷ b'+' ∷ b']' ∷ b' ' ∷ b'I' ∷ b'n' ∷ b'i' ∷ b't' ∷ b'i' ∷ b'a' ∷ b'l' ∷ b'i' ∷ b'z' ∷ b'e'
    ∷ b' ' ∷ b'R' ∷ b'P' ∷ b'C' ∷ b' ' ∷ b'C' ∷ b'l' ∷ b'i' ∷ b'e' ∷ b'n' ∷ b't' ∷ b' ' ∷ b'.'
    ∷ b'.' ∷ b'.' ∷ b' ' ∷ []

abbrev pub connecting_message : List ℕ
connecting_message =
    b'[' ∷ b'+' ∷ b']' ∷ b' ' ∷ b'C' ∷ b'o' ∷ b'n' ∷ b'n' ∷ b'e' ∷ b'c' ∷ b't' ∷ b'i' ∷ b'n' ∷ b'g'
    ∷ b' ' ∷ b't' ∷ b'o' ∷ b' ' ∷ b'S' ∷ b'e' ∷ b'r' ∷ b'v' ∷ b'e' ∷ b'r' ∷ b' ' ∷ b'.' ∷ b'.'
    ∷ b'.' ∷ b' ' ∷ []

abbrev pub running_message : List ℕ
running_message =
    b'[' ∷ b'+' ∷ b']' ∷ b' ' ∷ b'R' ∷ b'u' ∷ b'n' ∷ b'n' ∷ b'i' ∷ b'n' ∷ b'g' ∷ b' ' ∷ b'F' ∷ b'U'
    ∷ b'S' ∷ b'E' ∷ b' ' ∷ b'.' ∷ b'.' ∷ b'.' ∷ b' ' ∷ []

-- The time and the thread come for each call of the log. The result of fuse_main, and what was logged.
unfoldable pub main :
    (fuse_main : FuseOperations → ℤ)
    → (pid : ℕ) (clock : ℕ → List ℕ × ℕ) → List Bool
    → Written
    → Outcome (ℤ × Written)
unfolding connect
main fuse_main pid clock turns out = do
  log ← deref (log_create none client_name true debug pid)
  out1 ← log_info log (clock 0).0 (clock 0).1 initialize_message out
  out2 ← log_info log (clock 1).0 (clock 1).1 connecting_message out1
  _ ← connect turns
  out3 ← log_info log (clock 2).0 (clock 2).1 running_message out2
  ok (fuse_main ext2_operations, out3)
