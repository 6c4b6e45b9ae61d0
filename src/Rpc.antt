-- ===== src/Rpc.antt =====
-- The messages of fuse_ext2_commons/resources/rpc_layer.proto, by what the handlers set and the
-- closures read of them: `error_code`, which is 0 in every message, and `error` of the responses to
-- ReadDir and GetAttr, which no handler sets, stand only in Rpc.Messages. A `string` or `bytes` field
-- is the list of its bytes.
pub mod Structs
pub mod Tables
pub mod Descriptors
pub mod Messages
pub mod Library
pub mod Service
pub mod Methods
use fuse_ext.Base.{ℕ, Bool, false, List, []}

pub data Request : Type 0 where
  read_dir : List ℕ → Request
  get_attr : List ℕ → Request
  -- path, offset, length
  read : List ℕ → ℕ → ℕ → Request
  -- path, offset, data
  write : List ℕ → ℕ → List ℕ → Request

pub record GetAttrResponse : Type 0 where
  pub fileexist : Bool
  pub mode : ℕ
  pub nlinks : ℕ
  pub blocks : ℕ
  pub size : ℕ

-- RPC_LAYER__GET_ATTR_RESPONSE__INIT
abbrev pub get_attr_init : GetAttrResponse
get_attr_init = record { fileexist = false; mode = 0; nlinks = 0; blocks = 0; size = 0 }

pub record ReadResponse : Type 0 where
  pub bytes : List ℕ
  pub error : Bool

-- RPC_LAYER__READ_RESPONSE__INIT
abbrev pub read_init : ReadResponse
read_init = record { bytes = []; error = false }

pub data Response : Type 0 where
  entries : List (List ℕ) → Response
  attributes : GetAttrResponse → Response
  content : ReadResponse → Response
  written : Bool → Response
