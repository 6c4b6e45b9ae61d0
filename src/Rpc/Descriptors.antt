-- ===== src/Rpc/Descriptors.antt =====
-- The descriptors of fuse_ext2_commons/src/rpc_layer.pb-c.c: for each message the table of its
-- fields and the two tables by which protobuf-c finds a field by name and by number, and the same
-- for the service.
pub mod Laws
use Prim.Native.String.{String}
use fuse_ext.Base.{ℕ, some, List, [], ◌∷◌}
use fuse_ext.Rpc.Tables.{
  required, repeated, FieldType, string, bool, uint32, bytes, FieldDescriptor, IntRange,
  MessageDescriptor, MethodDescriptor, ServiceDescriptor,
}
use fuse_ext.Rpc.Structs.{
  Abi, MessageKind, read_dir_request, read_dir_response, get_attr_request, get_attr_response,
  read_request, read_response, write_request, write_response, offsetof, sizeof,
}

abbrev range : ℕ → ℕ → IntRange
range start index = record { start_value = start; orig_index = index }

module _ (abi : Abi) where
  abbrev field : MessageKind → String → ℕ → FieldType → String → FieldDescriptor
  field k name id t member = record {
    name = name;
    id = id;
    label = required;
    of_type = t;
    quantifier_offset = some 0;
    offset = offsetof abi k member;
  }

  abbrev pub read_dir_request_fields : List FieldDescriptor
  read_dir_request_fields = field read_dir_request "path" 1 string "path" ∷ []

  abbrev pub read_dir_request_descriptor : MessageDescriptor
  read_dir_request_descriptor = record {
    name = "RpcLayer.ReadDirRequest";
    short_name = "ReadDirRequest";
    c_name = "RpcLayer__ReadDirRequest";
    package_name = "RpcLayer";
    sizeof_message = sizeof abi read_dir_request;
    n_fields = 1;
    fields = read_dir_request_fields;
    field_indices_by_name = 0 ∷ [];
    n_field_ranges = 1;
    field_ranges = range 1 0 ∷ range 0 1 ∷ [];
  }

  abbrev pub read_dir_response_fields : List FieldDescriptor
  read_dir_response_fields =
      field read_dir_response "error" 1 bool "error"
      ∷ field read_dir_response "error_code" 2 uint32 "error_code"
      ∷ record {
        name = "elements";
        id = 3;
        label = repeated;
        of_type = string;
        quantifier_offset = offsetof abi read_dir_response "n_elements";
        offset = offsetof abi read_dir_response "elements";
      }
      ∷ []

  abbrev pub read_dir_response_descriptor : MessageDescriptor
  read_dir_response_descriptor = record {
    name = "RpcLayer.ReadDirResponse";
    short_name = "ReadDirResponse";
    c_name = "RpcLayer__ReadDirResponse";
    package_name = "RpcLayer";
    sizeof_message = sizeof abi read_dir_response;
    n_fields = 3;
    fields = read_dir_response_fields;
    field_indices_by_name = 2 ∷ 0 ∷ 1 ∷ [];
    n_field_ranges = 1;
    field_ranges = range 1 0 ∷ range 0 3 ∷ [];
  }

  abbrev pub get_attr_request_fields : List FieldDescriptor
  get_attr_request_fields = field get_attr_request "path" 1 string "path" ∷ []

  abbrev pub get_attr_request_descriptor : MessageDescriptor
  get_attr_request_descriptor = record {
    name = "RpcLayer.GetAttrRequest";
    short_name = "GetAttrRequest";
    c_name = "RpcLayer__GetAttrRequest";
    package_name = "RpcLayer";
    sizeof_message = sizeof abi get_attr_request;
    n_fields = 1;
    fields = get_attr_request_fields;
    field_indices_by_name = 0 ∷ [];
    n_field_ranges = 1;
    field_ranges = range 1 0 ∷ range 0 1 ∷ [];
  }

  abbrev pub get_attr_response_fields : List FieldDescriptor
  get_attr_response_fields =
      field get_attr_response "error" 1 bool "error"
      ∷ field get_attr_response "error_code" 2 uint32 "error_code"
      ∷ field get_attr_response "fileExist" 3 bool "fileexist"
      ∷ field get_attr_response "mode" 4 uint32 "mode"
      ∷ field get_attr_response "nlinks" 5 uint32 "nlinks"
      ∷ field get_attr_response "blocks" 6 uint32 "blocks"
      ∷ field get_attr_response "size" 7 uint32 "size"
      ∷ []

  abbrev pub get_attr_response_descriptor : MessageDescriptor
  get_attr_response_descriptor = record {
    name = "RpcLayer.GetAttrResponse";
    short_name = "GetAttrResponse";
    c_name = "RpcLayer__GetAttrResponse";
    package_name = "RpcLayer";
    sizeof_message = sizeof abi get_attr_response;
    n_fields = 7;
    fields = get_attr_response_fields;
    field_indices_by_name = 5 ∷ 0 ∷ 1 ∷ 2 ∷ 3 ∷ 4 ∷ 6 ∷ [];
    n_field_ranges = 1;
    field_ranges = range 1 0 ∷ range 0 7 ∷ [];
  }

  abbrev pub read_request_fields : List FieldDescriptor
  read_request_fields =
      field read_request "path" 1 string "path"
      ∷ field read_request "offset" 2 uint32 "offset"
      ∷ field read_request "length" 3 uint32 "length"
      ∷ []

  abbrev pub read_request_descriptor : MessageDescriptor
  read_request_descriptor = record {
    name = "RpcLayer.ReadRequest";
    short_name = "ReadRequest";
    c_name = "RpcLayer__ReadRequest";
    package_name = "RpcLayer";
    sizeof_message = sizeof abi read_request;
    n_fields = 3;
    fields = read_request_fields;
    field_indices_by_name = 2 ∷ 1 ∷ 0 ∷ [];
    n_field_ranges = 1;
    field_ranges = range 1 0 ∷ range 0 3 ∷ [];
  }

  abbrev pub read_response_fields : List FieldDescriptor
  read_response_fields =
      field read_response "data" 1 bytes "data"
      ∷ field read_response "error" 2 bool "error"
      ∷ field read_response "error_code" 3 uint32 "error_code"
      ∷ []

  abbrev pub read_response_descriptor : MessageDescriptor
  read_response_descriptor = record {
    name = "RpcLayer.ReadResponse";
    short_name = "ReadResponse";
    c_name = "RpcLayer__ReadResponse";
    package_name = "RpcLayer";
    sizeof_message = sizeof abi read_response;
    n_fields = 3;
    fields = read_response_fields;
    field_indices_by_name = 0 ∷ 1 ∷ 2 ∷ [];
    n_field_ranges = 1;
    field_ranges = range 1 0 ∷ range 0 3 ∷ [];
  }

  abbrev pub write_request_fields : List FieldDescriptor
  write_request_fields =
      field write_request "path" 1 string "path"
      ∷ field write_request "offset" 2 uint32 "offset"
      ∷ field write_request "data" 3 bytes "data"
      ∷ []

  abbrev pub write_request_descriptor : MessageDescriptor
  write_request_descriptor = record {
    name = "RpcLayer.WriteRequest";
    short_name = "WriteRequest";
    c_name = "RpcLayer__WriteRequest";
    package_name = "RpcLayer";
    sizeof_message = sizeof abi write_request;
    n_fields = 3;
    fields = write_request_fields;
    field_indices_by_name = 2 ∷ 1 ∷ 0 ∷ [];
    n_field_ranges = 1;
    field_ranges = range 1 0 ∷ range 0 3 ∷ [];
  }

  abbrev pub write_response_fields : List FieldDescriptor
  write_response_fields =
      field write_response "error" 1 bool "error"
      ∷ field write_response "error_code" 2 uint32 "error_code"
      ∷ []

  abbrev pub write_response_descriptor : MessageDescriptor
  write_response_descriptor = record {
    name = "RpcLayer.WriteResponse";
    short_name = "WriteResponse";
    c_name = "RpcLayer__WriteResponse";
    package_name = "RpcLayer";
    sizeof_message = sizeof abi write_response;
    n_fields = 2;
    fields = write_response_fields;
    field_indices_by_name = 0 ∷ 1 ∷ [];
    n_field_ranges = 1;
    field_ranges = range 1 0 ∷ range 0 2 ∷ [];
  }

  -- What stands at the address of a descriptor.
  abbrev pub descriptor : MessageKind → MessageDescriptor
  descriptor read_dir_request = read_dir_request_descriptor
  descriptor read_dir_response = read_dir_response_descriptor
  descriptor get_attr_request = get_attr_request_descriptor
  descriptor get_attr_response = get_attr_response_descriptor
  descriptor read_request = read_request_descriptor
  descriptor read_response = read_response_descriptor
  descriptor write_request = write_request_descriptor
  descriptor write_response = write_response_descriptor

abbrev method : String → MessageKind → MessageKind → MethodDescriptor
method name input output = record { name = name; input = input; output = output }

abbrev pub method_descriptors : List MethodDescriptor
method_descriptors =
    method "ReadDir" read_dir_request read_dir_response
    ∷ method "GetAttr" get_attr_request get_attr_response
    ∷ method "Read" read_request read_response
    ∷ method "Write" write_request write_response
    ∷ []

abbrev pub remote_ext2_descriptor : ServiceDescriptor
remote_ext2_descriptor = record {
  name = "RpcLayer.RemoteExt2";
  short_name = "Write";
  c_name = "RpcLayer__RemoteExt2";
  package_name = "RpcLayer";
  n_methods = 4;
  methods = method_descriptors;
  method_indices_by_name = 1 ∷ 2 ∷ 0 ∷ 3 ∷ [];
}
