-- ===== src/Rpc/Tables.antt =====
-- The structs of protobuf-c that fuse_ext2_commons/src/rpc_layer.pb-c.c fills in. Left out are
-- the magic numbers, the pointer to `__init` (Rpc.Methods has the functions) and the members that are
-- 0 or NULL in every table.
use Prim.Native.String.{String}
use fuse_ext.Base.{ℕ, Option, List}
use fuse_ext.Rpc.Structs.{MessageKind}

-- PROTOBUF_C_LABEL_* and PROTOBUF_C_TYPE_*, those that the tables use.
pub data Label : Type 0 where
  required repeated : Label

pub data FieldType : Type 0 where
  string bool uint32 bytes : FieldType

-- ProtobufCFieldDescriptor; the offset of the count of a required field is 0.
pub record FieldDescriptor : Type 0 where
  pub name : String
  pub id : ℕ
  pub label : Label
  pub of_type : FieldType
  pub quantifier_offset : Option ℕ
  pub offset : Option ℕ

-- ProtobufCIntRange
pub record IntRange : Type 0 where
  pub start_value : ℕ
  pub orig_index : ℕ

-- ProtobufCMessageDescriptor
pub record MessageDescriptor : Type 0 where
  pub name : String
  pub short_name : String
  pub c_name : String
  pub package_name : String
  pub sizeof_message : ℕ
  pub n_fields : ℕ
  pub fields : List FieldDescriptor
  pub field_indices_by_name : List ℕ
  pub n_field_ranges : ℕ
  pub field_ranges : List IntRange

-- ProtobufCMethodDescriptor and ProtobufCServiceDescriptor
pub record MethodDescriptor : Type 0 where
  pub name : String
  pub input : MessageKind
  pub output : MessageKind

pub record ServiceDescriptor : Type 0 where
  pub name : String
  pub short_name : String
  pub c_name : String
  pub package_name : String
  pub n_methods : ℕ
  pub methods : List MethodDescriptor
  pub method_indices_by_name : List ℕ
