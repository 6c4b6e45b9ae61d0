-- ===== src/Tests/Started.antt =====
-- The theorems on the start of the server, at the device of the tests.
use fuse_ext.Base.{ℕ, ◌≡◌, ◌↔◌, refl, some, List, [], ◌∷◌, arith, ok, inr}
use fuse_ext.Ext2.Layout.{inode_at}
use fuse_ext.Ext2.Geometry.{create}
use fuse_ext.Rpc.{Request, Response, get_attr, attributes}
use fuse_ext.Server.{
  serve, serve_all, service_get_attr, attributes_of, Host, running, server_create,
}
use fuse_ext.Server.Main.{exited, runs_on, fs_message, main as server_main}
use fuse_ext.Server.Main.Exits.{IsEnd, main-exited_iff}
use fuse_ext.Server.Main.Turns.{concat, logged, main-serve_all}
use fuse_ext.Server.Started.{IsStarted, server_create_iff}
use fuse_ext.Log.{Written}
use fuse_ext.Tests.Runs.{hello_found}
use fuse_ext.Tests.Disk.{disk, fs, hello, hello_inode, no_clusters}

abbrev host : Host
host = record { device_desc = some 3; st_mode = some 0o100644; mapping = some disk }

started_example : (server_create host ≡ ok (running fs disk)) ↔ IsStarted host fs disk
started_example = server_create_iff host fs disk

starts : server_create host ≡ ok (running fs disk)
unfolding server_create create
starts = refl

abbrev clock : ℕ → List ℕ × ℕ
clock i = (b'1' ∷ b'2' ∷ [], i)

abbrev nothing_written : Written
nothing_written = record { in_file = []; on_console = [] }

abbrev turns : List (List Request)
turns = [] ∷ (get_attr hello ∷ []) ∷ []

abbrev hello_response : Response
hello_response = attributes (attributes_of (inode_at disk hello_inode))

turns_served : serve_all no_clusters disk fs (concat turns) ≡ ok (disk, hello_response ∷ [])
unfolding serve_all serve service_get_attr
turns_served = rw hello_found refl

server_main_example :
    (by_turn : List (List Response)) × (lines : Written) × (server_main no_clusters host 7 clock
        turns nothing_written
      ≡ ok (runs_on disk by_turn lines))
    × (concat by_turn ≡ hello_response ∷ [])
server_main_example =
    main-serve_all no_clusters host fs disk 7 clock turns nothing_written
      ((server_create_iff host fs disk).0 starts) (λ i. omega arith) turns_served

-- A device of zeros.
abbrev blank_host : Host
blank_host = record host { mapping = some (λ a. 0) }

abbrev first_line : Written
first_line = (logged 7 (clock 0) fs_message nothing_written (omega arith) (omega arith)).0

exited_example :
    (server_main no_clusters blank_host 7 clock turns nothing_written ≡ ok (exited 1 first_line))
    ↔ IsEnd no_clusters blank_host 7 clock turns nothing_written 1 first_line
exited_example = main-exited_iff no_clusters blank_host 7 clock turns nothing_written 1 first_line

blank_ends :
    server_main no_clusters blank_host 7 clock turns nothing_written ≡ ok (exited 1 first_line)
blank_ends = exited_example.1 (
    inr (
      record {
        fd = 3;
        mode = 0o100644;
        device = λ a. 0;
        opened = refl;
        stated = refl;
        regular = refl;
        mapped = refl;
        magic = λ e. omega arith;
      },
      refl,
      (logged 7 (clock 0) fs_message nothing_written (omega arith) (omega arith)).1,
    ))
