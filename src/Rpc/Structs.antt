-- ===== src/Rpc/Structs.antt =====
-- The structs of fuse_ext2_commons/src/rpc_layer.pb-c.h and how C lays them out in memory.
use Prim.Native.String.{String, compare as compare_names}
use Prim.Native.Nat.{Ordering}
use fuse_ext.Base.{
  ℕ, ◌+◌, ◌-◌, ◌*◌, ◌/◌, Bool, true, false, if◌then◌else◌, Option, none, some, List, [], ◌∷◌,
}

-- A message type, by the address of its descriptor.
pub data MessageKind : Type 0 where
  read_dir_request read_dir_response get_attr_request get_attr_response : MessageKind
  read_request read_response write_request write_response : MessageKind

-- protobuf_c_boolean, uint32_t, size_t, `char *`, `char **` and ProtobufCBinaryData
pub data CType : Type 0 where
  boolean uint32 size text texts binary : CType

-- A member behind the member `base`.
pub record Member : Type 0 where
  pub name : String
  pub of_type : CType

abbrev member : String → CType → Member
member name t = record { name = name; of_type = t }

abbrev pub read_dir_request_members : List Member
read_dir_request_members = member "path" text ∷ []

abbrev pub read_dir_response_members : List Member
read_dir_response_members =
    member "error" boolean
    ∷ member "error_code" uint32
    ∷ member "n_elements" size
    ∷ member "elements" texts
    ∷ []

abbrev pub get_attr_request_members : List Member
get_attr_request_members = member "path" text ∷ []

abbrev pub get_attr_response_members : List Member
get_attr_response_members =
    member "error" boolean
    ∷ member "error_code" uint32
    ∷ member "fileexist" boolean
    ∷ member "mode" uint32
    ∷ member "nlinks" uint32
    ∷ member "blocks" uint32
    ∷ member "size" uint32
    ∷ []

abbrev pub read_request_members : List Member
read_request_members = member "path" text ∷ member "offset" uint32 ∷ member "length" uint32 ∷ []

abbrev pub read_response_members : List Member
read_response_members =
    member "data" binary ∷ member "error" boolean ∷ member "error_code" uint32 ∷ []

abbrev pub write_request_members : List Member
write_request_members = member "path" text ∷ member "offset" uint32 ∷ member "data" binary ∷ []

abbrev pub write_response_members : List Member
write_response_members = member "error" boolean ∷ member "error_code" uint32 ∷ []

abbrev pub members : MessageKind → List Member
members read_dir_request = read_dir_request_members
members read_dir_response = read_dir_response_members
members get_attr_request = get_attr_request_members
members get_attr_response = get_attr_response_members
members read_request = read_request_members
members read_response = read_response_members
members write_request = write_request_members
members write_response = write_response_members

abbrev pub name_eq : String → String → Bool
name_eq a b = elim (compare_names a b) [
  | Ordering.lt ↦ false
  | Ordering.eq ↦ true
  | Ordering.gt ↦ false
]

-- What the layout depends on: the size of a pointer, and the size of ProtobufCMessage, the type of
-- `base`. A protobuf_c_boolean is an int, and int and uint32_t have 4 bytes.
pub record Abi : Type 0 where
  pub pointer : ℕ
  pub base : ℕ

module _ (abi : Abi) where
  abbrev pub size_of : CType → ℕ
  size_of boolean = 4
  size_of uint32 = 4
  size_of size = abi.pointer
  size_of text = abi.pointer
  size_of texts = abi.pointer
  size_of binary = abi.pointer + abi.pointer

  abbrev pub align_of : CType → ℕ
  align_of boolean = 4
  align_of uint32 = 4
  align_of size = abi.pointer
  align_of text = abi.pointer
  align_of texts = abi.pointer
  align_of binary = abi.pointer

  abbrev pub round_up : ℕ → ℕ → ℕ
  round_up n a = (n + a - 1) / a * a

  -- Where the members stand when the struct before them ends at `end`.
  unfoldable pub layout : ℕ → List Member → List (ℕ × CType)
  layout end [] = []
  layout end (m ∷ ms) =
      let at = round_up end (align_of m.of_type) in
      (at, m.of_type) ∷ layout (at + size_of m.of_type) ms

  unfoldable pub struct_end : ℕ → List Member → ℕ
  struct_end end [] = end
  struct_end end (m ∷ ms) = struct_end (round_up end (align_of m.of_type) + size_of m.of_type) ms

  unfoldable pub offset_in : ℕ → List Member → String → Option ℕ
  offset_in end [] name = none
  offset_in end (m ∷ ms) name =
      let at = round_up end (align_of m.of_type) in
      let later = offset_in (at + size_of m.of_type) ms name in
      if name_eq m.name name then some at else later

  -- `sizeof`, and PROTOBUF_C_OFFSETOF, which does not compile where the result is none.
  abbrev pub sizeof : MessageKind → ℕ
  sizeof k = round_up (struct_end abi.base (members k)) abi.pointer

  abbrev pub offsetof : MessageKind → String → Option ℕ
  offsetof k name = offset_in abi.base (members k) name
