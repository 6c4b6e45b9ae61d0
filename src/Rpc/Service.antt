-- ===== src/Rpc/Service.antt =====
-- The service of fuse_ext2_commons/src/rpc_layer.pb-c.c and .h: the table of the functions of a
-- server, and the stubs that a client calls. A failed PROTOBUF_C_ASSERT is a fault.
pub mod Remote
pub mod Session
use fuse_ext.Base.{ℕ, Bool, true, false, if◌then◌else◌, List, [], ◌∷◌, Memory, Outcome, fault}
use fuse_ext.Rpc.Messages.{Message}
use fuse_ext.Rpc.Library.{Handler, Library}

-- Which object a pointer to a ProtobufCServiceDescriptor leads to.
pub data ServiceAddress : Type 0 where
  remote_ext2 : ServiceAddress
  another : ℕ → ServiceAddress

abbrev pub is_remote_ext2 : ServiceAddress → Bool
is_remote_ext2 remote_ext2 = true
is_remote_ext2 (another n) = false

-- ProtobufCService; a handler stands for a call with its closure.
pub record ProtobufCService : Type 0 where
  pub descriptor : ServiceAddress
  pub invoke : ℕ → Handler

-- RpcLayer__RemoteExt2_Service
pub record RemoteExt2Service : Type 0 where
  pub base : ProtobufCService
  pub read_dir : Handler
  pub get_attr : Handler
  pub read : Handler
  pub write : Handler

-- RPC_LAYER__REMOTE_EXT2__INIT: `invoke` is protobuf_c_service_invoke_internal, which finds the
-- functions in their places behind `base`.
abbrev pub remote_ext2_init : Library → (read_dir get_attr read write : Handler) → RemoteExt2Service
remote_ext2_init lib read_dir get_attr read write = record {
  base = record {
    descriptor = remote_ext2;
    invoke = lib.invoke_internal (read_dir ∷ get_attr ∷ read ∷ write ∷ []);
  };
  read_dir = read_dir;
  get_attr = get_attr;
  read = read;
  write = write;
}

abbrev invoke_checked : ProtobufCService → ℕ → Handler
invoke_checked service k m input =
    if is_remote_ext2 service.descriptor then service.invoke k m input else fault

-- rpc_layer__remote_ext2__read_dir, __get_attr, __read and __write
abbrev pub remote_ext2_read_dir : ProtobufCService → Handler
remote_ext2_read_dir service = invoke_checked service 0

abbrev pub remote_ext2_get_attr : ProtobufCService → Handler
remote_ext2_get_attr service = invoke_checked service 1

abbrev pub remote_ext2_read : ProtobufCService → Handler
remote_ext2_read service = invoke_checked service 2

abbrev pub remote_ext2_write : ProtobufCService → Handler
remote_ext2_write service = invoke_checked service 3
