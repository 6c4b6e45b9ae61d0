-- ===== src/Tests/Operations.antt =====
-- The theorems on sessions at the device of the tests.
use fuse_ext.Base.{inl, inr, ◌≡◌, refl, List, [], ◌∷◌, Memory, arith, ok, false}
use fuse_ext.Server.{serve_all}
use fuse_ext.Ext2.Data.Store.{held}
use fuse_ext.System.Session.Answers.{Op, lists, writes, reads, stats, op_requests, op_answers}
use fuse_ext.System.Session.Mixed.{serve_all-op_answers}
use fuse_ext.System.Session.Fuse.{FuseOp, listing, writing, reading, getting, operate_all, results}
use fuse_ext.System.Session.Operations.{operate_all-results}
use fuse_ext.Tests.Disk.{hello, disk, fs, buff, root_inode, hello_inode, no_clusters, disk-IsBytes}
use fuse_ext.Tests.Runs.{root_found}
use fuse_ext.Tests.Sessions.{
  IsFile, IsBelow, hello-IsLayout, hello-AreClear, disk-GroupsOn, hello-IsNamed, root-IsNamed,
  root-IsListed, hello_entry,
}
use fuse_ext.Tests.Wire.{abi, plain_library, plain_library-IsLibrary}
use fuse_ext.Tests.Calls.{no_clusters-KeepBytes, hello-IsString}

-- A read before and a read after a write, the attributes, and the root.
abbrev ops : List Op
ops =
    reads hello hello_inode 1021 6
    ∷ writes
        (record { path = hello; to = record { file = hello_inode; offset = 1022; buff = buff } })
    ∷ reads hello hello_inode 1021 6
    ∷ stats hello hello_inode
    ∷ lists (b'/' ∷ []) root_inode
    ∷ stats (b'/' ∷ []) root_inode
    ∷ []

ops_example :
    (after : Memory) × (serve_all no_clusters disk fs (op_requests ops)
      ≡ ok (after, op_answers fs disk (held disk fs) ops))
ops_example =
    serve_all-op_answers no_clusters fs IsFile IsBelow disk root_inode disk-GroupsOn root_found ops
      (
        (hello-IsNamed, refl, omega arith, omega arith, omega arith),
        (
          (hello-IsNamed, (refl, omega arith, omega arith)),
          (
            (hello-IsNamed, refl, omega arith, omega arith, omega arith),
            (
              (hello-IsNamed, inl refl),
              (
                (root-IsNamed, hello_entry ∷ [], root-IsListed),
                ((root-IsNamed, inr (λ i h. omega arith)), tt),
              ),
            ),
          ),
        ),
      )
      hello-IsLayout hello-AreClear

abbrev fuse_ops : List FuseOp
fuse_ops =
    writing
      (record { path = hello; to = record { file = hello_inode; offset = 1022; buff = buff } })
    ∷ reading hello hello_inode 1021 (0 ∷ 0 ∷ 0 ∷ 0 ∷ 0 ∷ 0 ∷ [])
    ∷ getting hello hello_inode (record { st_mode = 0; st_size = 0; st_nlink = 0; st_blocks = 0 })
    ∷ listing (b'/' ∷ []) root_inode []
    ∷ []

operations_example :
    (after : Memory) × (operate_all plain_library no_clusters fs false disk fuse_ops
      ≡ ok (after, results fs disk (held disk fs) fuse_ops))
operations_example =
    operate_all-results abi plain_library plain_library-IsLibrary no_clusters no_clusters-KeepBytes
      fs IsFile IsBelow disk root_inode disk-GroupsOn root_found disk-IsBytes fuse_ops
      (
        (
          (hello-IsNamed, (refl, omega arith, omega arith)),
          hello-IsString,
          (omega arith, (omega arith, (omega arith, (omega arith, tt)))),
        ),
        (
          ((hello-IsNamed, refl, omega arith, omega arith, omega arith), hello-IsString),
          (
            ((hello-IsNamed, inl refl), hello-IsString),
            (((root-IsNamed, hello_entry ∷ [], root-IsListed), (omega arith, tt)), tt),
          ),
        ),
      )
      hello-IsLayout hello-AreClear
