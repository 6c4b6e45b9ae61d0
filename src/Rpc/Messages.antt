-- ===== src/Rpc/Messages.antt =====
-- The messages as protobuf-c sees them: the address of a descriptor and what the members of the
-- struct hold. The INIT values of fuse_ext2_commons/src/rpc_layer.pb-c.h, the queries of
-- fuse_ext2_client/src/fuse_client.c and the responses of fuse_ext2_server/src/ext2_server.c.
pub mod Typed
use fuse_ext.Base.{
  ℕ, zero, suc, ◌<◌, ◌^◌, Bool, false, ◌≡◌, true, arith, ◌==◌, if◌then◌else◌, List, [], ◌∷◌,
  Outcome, ok, fault, u32,
}
use fuse_ext.Rpc.{
  Request, read_dir, get_attr, read, write, GetAttrResponse, ReadResponse, Response, entries,
  attributes, content, written,
}
use fuse_ext.Rpc.Structs.{
  Abi, MessageKind, read_dir_request, read_dir_response, get_attr_request, get_attr_response,
  read_request, read_response, write_request, write_response,
}
use fuse_ext.Rpc.Tables.{Label, required, repeated, FieldType, FieldDescriptor}
use fuse_ext.Rpc.Descriptors.{descriptor}

-- What the members of one field hold; an array with its count is a list of strings.
pub data Value : Type 0 where
  null : Value
  string : List ℕ → Value
  bool : Bool → Value
  uint32 : ℕ → Value
  bytes : List ℕ → Value
  strings : List (List ℕ) → Value

pub record Message : Type 0 where
  pub descriptor : MessageKind
  pub values : List Value

abbrev set_value : ℕ → Value → List Value → List Value
set_value i v [] = []
set_value zero v (x ∷ xs) = v ∷ xs
set_value (suc i) v (x ∷ xs) = x ∷ set_value i v xs

abbrev set : ℕ → Value → Message → Message
set i v m = record m { values = set_value i v m.values }

abbrev pub read_dir_request_init : Message
read_dir_request_init = record { descriptor = read_dir_request; values = null ∷ [] }

abbrev pub read_dir_response_init : Message
read_dir_response_init = record {
  descriptor = read_dir_response;
  values = bool false ∷ uint32 0 ∷ strings [] ∷ [];
}

abbrev pub get_attr_request_init : Message
get_attr_request_init = record { descriptor = get_attr_request; values = null ∷ [] }

abbrev pub get_attr_response_init : Message
get_attr_response_init = record {
  descriptor = get_attr_response;
  values = bool false ∷ uint32 0 ∷ bool false ∷ uint32 0 ∷ uint32 0 ∷ uint32 0 ∷ uint32 0 ∷ [];
}

abbrev pub read_request_init : Message
read_request_init = record { descriptor = read_request; values = null ∷ uint32 0 ∷ uint32 0 ∷ [] }

abbrev pub read_response_init : Message
read_response_init = record {
  descriptor = read_response;
  values = bytes [] ∷ bool false ∷ uint32 0 ∷ [];
}

abbrev pub write_request_init : Message
write_request_init = record { descriptor = write_request; values = null ∷ uint32 0 ∷ bytes [] ∷ [] }

abbrev pub write_response_init : Message
write_response_init = record { descriptor = write_response; values = bool false ∷ uint32 0 ∷ [] }

-- The queries: the fields that the client sets. A request holds numbers of 32 bits.
abbrev pub read_dir_query : List ℕ → Message
read_dir_query path = set 0 (string path) read_dir_request_init

abbrev pub get_attr_query : List ℕ → Message
get_attr_query path = set 0 (string path) get_attr_request_init

abbrev pub read_query : List ℕ → ℕ → ℕ → Message
read_query path offset length =
    set 2 (uint32 length) (set 1 (uint32 offset) (set 0 (string path) read_request_init))

abbrev pub write_query : List ℕ → ℕ → List ℕ → Message
write_query path offset buff =
    set 2 (bytes buff) (set 1 (uint32 offset) (set 0 (string path) write_request_init))

abbrev pub query : Request → Message
query (read_dir path) = read_dir_query path
query (get_attr path) = get_attr_query path
query (read path offset length) = read_query path offset length
query (write path offset buff) = write_query path offset buff

-- The responses: the fields that the handlers set. The numbers are cut to uint32_t.
abbrev pub entries_message : List (List ℕ) → Message
entries_message elements = set 2 (strings elements) read_dir_response_init

abbrev pub attributes_message : GetAttrResponse → Message
attributes_message r = set 6 (uint32 (u32 r.size)) (
    set 4 (uint32 (u32 r.nlinks)) (
      set 5 (uint32 (u32 r.blocks))
        (set 3 (uint32 (u32 r.mode)) (set 2 (bool r.fileexist) get_attr_response_init))))

abbrev pub content_message : ReadResponse → Message
content_message r = set 0 (bytes r.bytes) (set 1 (bool r.error) read_response_init)

abbrev pub written_message : Bool → Message
written_message error = set 0 (bool error) write_response_init

abbrev pub response : Response → Message
response (entries elements) = entries_message elements
response (attributes r) = attributes_message r
response (content r) = content_message r
response (written error) = written_message error

abbrev index : MessageKind → ℕ
index read_dir_request = 0
index read_dir_response = 1
index get_attr_request = 2
index get_attr_response = 3
index read_request = 4
index read_response = 5
index write_request = 6
index write_response = 7

-- Two descriptors are the same object.
abbrev pub kind_eq : MessageKind → MessageKind → Bool
kind_eq k l = index k == index l

pub kind_eq_refl : (k : MessageKind) → kind_eq k k ≡ true
kind_eq_refl k = ground arith

-- What a pointer to the struct of a type reads of a message. The struct of another type is a fault.
abbrev pub members_of : MessageKind → Message → Outcome (List Value)
members_of k m = if kind_eq k m.descriptor then ok m.values else fault

-- The fields that the handlers read, from the structs of the requests; NULL for a path is a fault.
abbrev pub as_path : List Value → Outcome (List ℕ)
as_path (string path ∷ []) = ok path
as_path values = fault

abbrev pub as_read : List Value → Outcome (List ℕ × ℕ × ℕ)
as_read (string path ∷ uint32 offset ∷ uint32 length ∷ []) = ok (path, offset, length)
as_read values = fault

abbrev pub as_write : List Value → Outcome (List ℕ × ℕ × List ℕ)
as_write (string path ∷ uint32 offset ∷ bytes buff ∷ []) = ok (path, offset, buff)
as_write values = fault

-- The fields that the closures of the client find in the responses.
abbrev pub as_entries : List Value → Outcome Response
as_entries (bool error ∷ uint32 code ∷ strings elements ∷ []) = ok (entries elements)
as_entries values = fault

abbrev pub as_attributes : List Value → Outcome Response
as_attributes
      (bool error
        ∷ uint32 code
        ∷ bool fileexist
        ∷ uint32 mode
        ∷ uint32 nlinks
        ∷ uint32 blocks
        ∷ uint32 size
        ∷ []) =
    ok (
      attributes (record {
        fileexist = fileexist;
        mode = mode;
        nlinks = nlinks;
        blocks = blocks;
        size = size;
      }))
as_attributes values = fault

abbrev pub as_content : List Value → Outcome Response
as_content (bytes data_bytes ∷ bool error ∷ uint32 code ∷ []) =
    ok (content (record { bytes = data_bytes; error = error }))
as_content values = fault

abbrev pub as_written : List Value → Outcome Response
as_written (bool error ∷ uint32 code ∷ []) = ok (written error)
as_written values = fault

abbrev pub as_response : MessageKind → List Value → Outcome Response
as_response read_dir_response values = as_entries values
as_response get_attr_response values = as_attributes values
as_response read_response values = as_content values
as_response write_response values = as_written values
as_response read_dir_request values = fault
as_response get_attr_request values = fault
as_response read_request values = fault
as_response write_request values = fault
