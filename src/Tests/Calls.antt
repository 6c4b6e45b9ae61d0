-- ===== src/Tests/Calls.antt =====
-- The theorems on the messages and the remote calls at the device of the tests.
use fuse_ext.Base.{
  IsBytes, subst, ok-injective, inr, ◌≤◌, ◌+◌, ℕ, ◌≡◌, refl, some, List, [], ◌∷◌, arith, ok,
}
use fuse_ext.Rpc.{Request, read, write, get_attr, attributes, GetAttrResponse}
use fuse_ext.Ext2.Layout.{inode_at}
use fuse_ext.Server.{serve_all, serve, service_get_attr, attributes_of}
use fuse_ext.Rpc.Service.Session.{call_all, call_all-serve_all}
use fuse_ext.Ext2.Data.Bytes.{KeepBytes}
use fuse_ext.Rpc.Descriptors.Laws.{IsTable, IsServiceTable, descriptor-IsTable}
use fuse_ext.Tests.Disk.{disk, fs, hello, hello_inode, no_clusters, disk-IsBytes}
use fuse_ext.Tests.Runs.{hello_found}
use fuse_ext.Client.Stray.{offsetof-stray}
use fuse_ext.Rpc.Structs.{
  read_response, write_response, offsetof, sizeof, MessageKind, get_attr_response,
}
use fuse_ext.Rpc.Messages.Typed.{IsString, IsSent, serve-IsSent}
use fuse_ext.Tests.Wire.{abi, plain_library, plain_library-IsLibrary}

pub hello-IsString : IsString hello
hello-IsString =
    (omega arith, (omega arith, (omega arith, (omega arith, (omega arith, (omega arith, tt))))))

pub no_clusters-KeepBytes : KeepBytes no_clusters
no_clusters-KeepBytes m self inode n after bytes =
    let same : ok m ≡ ok after → IsBytes after = λ run. subst IsBytes (ok-injective run) bytes in
    (same, same)

abbrev session : List Request
session = get_attr hello ∷ write hello 1020 (7 ∷ 8 ∷ []) ∷ read hello 1020 8 ∷ []

calls_example :
    call_all plain_library no_clusters fs disk session ≡ serve_all no_clusters disk fs session
calls_example =
    call_all-serve_all abi plain_library plain_library-IsLibrary no_clusters no_clusters-KeepBytes
      fs disk session disk-IsBytes
      (
        (hello-IsString, tt),
        (
          ((hello-IsString, omega arith), (omega arith, (omega arith, tt))),
          (((hello-IsString, omega arith, omega arith), tt), tt),
        ),
      )

-- The attributes of /hello, as they are sent.
hello_attributes : GetAttrResponse
hello_attributes = attributes_of (inode_at disk hello_inode)

response_example : IsSent abi get_attr_response (attributes hello_attributes)
unfolding hello_attributes
response_example =
    serve-IsSent abi no_clusters disk fs (get_attr hello) {after = disk} disk-IsBytes
      (unfold serve service_get_attr in rw hello_found refl)

table_example : ((k : MessageKind) → IsTable abi k) × IsServiceTable
table_example = descriptor-IsTable abi

stray_example :
    (own : ℕ) × (at : ℕ) × (offsetof abi write_response "error" ≡ some own)
    × (own + 4 ≤ sizeof abi write_response)
    × (offsetof abi read_response "error" ≡ some at)
    × (sizeof abi write_response ≤ at)
stray_example = offsetof-stray abi (inr refl, refl)
