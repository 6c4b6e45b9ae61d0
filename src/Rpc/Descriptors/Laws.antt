-- ===== src/Rpc/Descriptors/Laws.antt =====
-- The tables of rpc_layer.pb-c.c agree with the structs of rpc_layer.pb-c.h and with each other.
use Prim.Native.String.{String, compare as compare_names}
use Prim.Native.Nat.{Ordering}
use fuse_ext.Base.{
  ℕ, zero, suc, ◌≡◌, refl, Option, none, some, List, [], ◌∷◌, ◌++◌, map, length, get_elem?,
}
use fuse_ext.Rpc.Structs.{
  Abi, MessageKind, read_dir_request, read_dir_response, get_attr_request, get_attr_response,
  read_request, read_response, write_request, write_response, CType, boolean, uint32, size, text,
  texts, binary, members, layout, offset_in,
}
use fuse_ext.Rpc.Tables.{
  required, repeated, FieldType, string, bool, FieldDescriptor, MessageDescriptor, MethodDescriptor,
}
use fuse_ext.Rpc.Descriptors.{descriptor, method_descriptors, remote_ext2_descriptor}

-- The members that a field of the type takes in the struct, each with its offset: one for a
-- required field; the count and the array for a repeated one.
abbrev pub required_type : FieldType → CType
required_type string = text
required_type bool = boolean
required_type FieldType.uint32 = uint32
required_type FieldType.bytes = binary

abbrev pub repeated_type : FieldType → Option CType
repeated_type string = some texts
repeated_type bool = none
repeated_type FieldType.uint32 = none
repeated_type FieldType.bytes = none

abbrev pub slots_of : FieldDescriptor → List (Option ℕ × Option CType)
slots_of f = elim f.label [
  | required ↦ (f.offset, some (required_type f.of_type)) ∷ []
  | repeated ↦ (f.quantifier_offset, some size) ∷ (f.offset, repeated_type f.of_type) ∷ []
]

abbrev pub slots : List FieldDescriptor → List (Option ℕ × Option CType)
slots [] = []
slots (f ∷ fs) = slots_of f ++ slots fs

abbrev pub known : ℕ × CType → Option ℕ × Option CType
known (at, t) = (some at, some t)

-- Names in the order of strcmp.
abbrev pub insert_name : String → List String → List String
insert_name x [] = x ∷ []
insert_name x (y ∷ ys) =
    let rest = insert_name x ys in
    elim (compare_names x y) [
      | Ordering.lt ↦ x ∷ y ∷ ys
      | Ordering.eq ↦ x ∷ y ∷ ys
      | Ordering.gt ↦ y ∷ rest
    ]

abbrev pub sort_names : List String → List String
sort_names [] = []
sort_names (x ∷ xs) = insert_name x (sort_names xs)

abbrev pub name_at : List String → ℕ → Option String
name_at = get_elem?

abbrev pub count_from : ℕ → ℕ → List ℕ
count_from i zero = []
count_from i (suc n) = i ∷ count_from (suc i) n

module _ (abi : Abi) where
  abbrev pub field_names : MessageDescriptor → List String
  field_names d = map (λ (f : FieldDescriptor). f.name) d.fields

  -- What protobuf-c relies on when it walks a message with the tables.
  pub record IsTable (k : MessageKind) : Type 0 where
    -- field by field, the offsets and the types are those of the members of the struct, none left out
    pub covered : slots (descriptor abi k).fields ≡ map known (layout abi abi.base (members k))
    pub counted : (descriptor abi k).n_fields ≡ length (descriptor abi k).fields
    -- the numbers are 1, 2, …: one range from 1, for field 0, and the end mark with the count
    pub numbered :
        map (λ (f : FieldDescriptor). f.id) (descriptor abi k).fields
        ≡ count_from 1 (length (descriptor abi k).fields)
    pub ranged :
        (descriptor abi k).field_ranges
        ≡ record { start_value = 1; orig_index = 0 }
          ∷ record { start_value = 0; orig_index = length (descriptor abi k).fields }
          ∷ []
    -- through the table by name the fields stand in the order of their names
    pub sorted :
        map (name_at (field_names (descriptor abi k))) (descriptor abi k).field_indices_by_name
        ≡ map some (sort_names (field_names (descriptor abi k)))

-- The methods of the service in the order of their names.
abbrev pub IsServiceTable : Type 0
IsServiceTable =
    let names = map (λ (d : MethodDescriptor). d.name) method_descriptors in
    (remote_ext2_descriptor.n_methods ≡ length method_descriptors)
    × (map (name_at names) remote_ext2_descriptor.method_indices_by_name
        ≡ map some (sort_names names))

-- The tables of each of the eight messages and of the service are right, whatever the sizes of a
-- pointer and of the message base: the fields are, in order, the members of the struct, with their
-- offsets and types; they are numbered from 1 without a gap, as the table of ranges says; and the
-- tables by name list the fields, and the methods, in the order of their names.
pub descriptor-IsTable : (abi : Abi) → ((k : MessageKind) → IsTable abi k) × IsServiceTable
unfolding layout offset_in
descriptor-IsTable abi = (message_table, (refl, refl))
  where
    message_table : (k : MessageKind) → IsTable abi k
    message_table read_dir_request = record {
      covered = refl;
      counted = refl;
      numbered = refl;
      ranged = refl;
      sorted = refl;
    }
    message_table read_dir_response = record {
      covered = refl;
      counted = refl;
      numbered = refl;
      ranged = refl;
      sorted = refl;
    }
    message_table get_attr_request = record {
      covered = refl;
      counted = refl;
      numbered = refl;
      ranged = refl;
      sorted = refl;
    }
    message_table get_attr_response = record {
      covered = refl;
      counted = refl;
      numbered = refl;
      ranged = refl;
      sorted = refl;
    }
    message_table read_request = record {
      covered = refl;
      counted = refl;
      numbered = refl;
      ranged = refl;
      sorted = refl;
    }
    message_table read_response = record {
      covered = refl;
      counted = refl;
      numbered = refl;
      ranged = refl;
      sorted = refl;
    }
    message_table write_request = record {
      covered = refl;
      counted = refl;
      numbered = refl;
      ranged = refl;
      sorted = refl;
    }
    message_table write_response = record {
      covered = refl;
      counted = refl;
      numbered = refl;
      ranged = refl;
      sorted = refl;
    }
