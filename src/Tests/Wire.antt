-- ===== src/Tests/Wire.antt =====
-- A library that packs each number into one element.
use fuse_ext.Base.{
  false, ℕ, zero, suc, ◌≡◌, refl, ap, true, false, ◌==◌, not, if◌then◌else◌, Option, none, some,
  List, [], ◌∷◌, ◌++◌, append_assoc, length, take, drop, get_elem?, Memory, Outcome, fault, ◌>>=◌,
}
use fuse_ext.Tests.Disk.{fs}
use fuse_ext.Rpc.Structs.{Abi, MessageKind}
use fuse_ext.Rpc.Tables.{Label, required, repeated, FieldType, FieldDescriptor, MethodDescriptor}
use fuse_ext.Rpc.Descriptors.{descriptor}
use fuse_ext.Rpc.Messages.{Value, Message}
use fuse_ext.Rpc.Messages.Typed.{IsValue, AreValues}
use fuse_ext.Rpc.Library.{Handler, delivered, Library, IsLibrary}

abbrev pub abi : Abi
abi = record { pointer = 8; base = 24 }

abbrev with_length : List ℕ → List ℕ
with_length s = length s ∷ s

abbrev with_lengths : List (List ℕ) → List ℕ
with_lengths [] = []
with_lengths (s ∷ ss) = with_length s ++ with_lengths ss

abbrev encode : Value → List ℕ
encode Value.null = []
encode (Value.string s) = with_length s
encode (Value.bool b) = (if b then 1 else 0) ∷ []
encode (Value.uint32 n) = n ∷ []
encode (Value.bytes s) = with_length s
encode (Value.strings ss) = length ss ∷ with_lengths ss

abbrev encode_all : List Value → List ℕ
encode_all [] = []
encode_all (v ∷ vs) = encode v ++ encode_all vs

abbrev decode_list : List ℕ → Option (List ℕ × List ℕ)
decode_list [] = none
decode_list (n ∷ xs) = some (take n xs, drop n xs)

abbrev prepend : List ℕ → Option (List (List ℕ) × List ℕ) → Option (List (List ℕ) × List ℕ)
prepend s none = none
prepend s (some (ss, xs)) = some (s ∷ ss, xs)

abbrev decode_lists : ℕ → List ℕ → Option (List (List ℕ) × List ℕ)
decode_lists zero xs = some ([], xs)
decode_lists (suc n) [] = none
decode_lists (suc n) (k ∷ xs) = prepend (take k xs) (decode_lists n (drop k xs))

abbrev as_value {ℓ} : {A : Type ℓ} → (A → Value) → Option (A × List ℕ) → Option (Value × List ℕ)
as_value make none = none
as_value make (some (a, xs)) = some (make a, xs)

abbrev decode : Label → FieldType → List ℕ → Option (Value × List ℕ)
decode required FieldType.string xs = as_value Value.string (decode_list xs)
decode required FieldType.bytes xs = as_value Value.bytes (decode_list xs)
decode required FieldType.bool [] = none
decode required FieldType.bool (b ∷ xs) = some (Value.bool (not (b == 0)), xs)
decode required FieldType.uint32 [] = none
decode required FieldType.uint32 (n ∷ xs) = some (Value.uint32 n, xs)
decode repeated t [] = none
decode repeated t (n ∷ xs) = as_value Value.strings (decode_lists n xs)

abbrev and_then : Option (Value × List ℕ) → (List ℕ → Option (List Value)) → Option (List Value)
and_then none f = none
and_then (some (v, xs)) f = elim (f xs) [ none ↦ none | some vs ↦ some (v ∷ vs) ]

abbrev decode_all : List FieldDescriptor → List ℕ → Option (List Value)
decode_all [] xs = some []
decode_all (f ∷ fs) xs = and_then (decode f.label f.of_type xs) (λ ys. decode_all fs ys)

take_all : (s rest : List ℕ) → take (length s) (s ++ rest) ≡ s
take_all [] rest = refl
take_all (x ∷ s) rest = ap (λ t. x ∷ t) (take_all s rest)

drop_all : (s rest : List ℕ) → drop (length s) (s ++ rest) ≡ rest
drop_all [] rest = refl
drop_all (x ∷ s) rest = drop_all s rest

decode_lists-with_lengths :
    (ss : List (List ℕ)) (rest : List ℕ)
    → decode_lists (length ss) (with_lengths ss ++ rest) ≡ some (ss, rest)
decode_lists-with_lengths [] rest = refl
decode_lists-with_lengths (s ∷ ss) rest =
    rw
      (
        append_assoc s (with_lengths ss) rest,
        take_all s (with_lengths ss ++ rest),
        drop_all s (with_lengths ss ++ rest),
      )
      (ap (prepend s) (decode_lists-with_lengths ss rest))

decode-encode :
    {l : Label} {t : FieldType} {v : Value} (rest : List ℕ)
    → IsValue l t v
    → decode l t (encode v ++ rest) ≡ some (v, rest)
decode-encode rest (IsValue.string {s} h) = rw (take_all s rest, drop_all s rest) refl
decode-encode rest (IsValue.bytes {bs}) = rw (take_all bs rest, drop_all bs rest) refl
decode-encode rest (IsValue.bool {b = true}) = refl
decode-encode rest (IsValue.bool {b = false}) = refl
decode-encode rest (IsValue.uint32 small) = refl
decode-encode rest (IsValue.strings {ss} h) =
    ap (as_value Value.strings) (decode_lists-with_lengths ss rest)

decode_all-encode_all :
    {fs : List FieldDescriptor} {vs : List Value}
    → AreValues fs vs
    → decode_all fs (encode_all vs) ≡ some vs
decode_all-encode_all AreValues.end = refl
decode_all-encode_all (AreValues.field {f} {fs} {v} {vs} h hs) =
    rw (decode-encode (encode_all vs) h) (rw (decode_all-encode_all hs) refl)

abbrev message_of : MessageKind → Option (List Value) → Option Message
message_of k none = none
message_of k (some values) = some (record { descriptor = k; values = values })

abbrev call_handler : Option Handler → Handler
call_handler none m request = fault
call_handler (some h) m request = h m request

abbrev pack : Message → List ℕ
pack m = encode_all m.values

abbrev unpack : MessageKind → List ℕ → Option Message
unpack k xs = message_of k (decode_all (descriptor abi k).fields xs)

abbrev call_unpacked :
    Option Message → (Message → Outcome (Memory × Message)) → Outcome (Memory × Message)
call_unpacked none h = fault
call_unpacked (some request) h = h request

abbrev transport : Option MethodDescriptor → Handler → Handler
transport none h m request = fault
transport (some d) h m request = call_unpacked (unpack d.input (pack request)) (h m) >>= λ r.
    delivered r.0 (unpack d.output (pack r.1))

abbrev pub plain_library : Library
plain_library = record {
  get_packed_size = λ m. length (pack m);
  pack = pack;
  unpack = unpack;
  invoke_internal = λ hs k. call_handler (get_elem? hs k);
  invoke_remote = λ d service k. transport (get_elem? d.methods k) (service k);
}

pub plain_library-IsLibrary : IsLibrary abi plain_library
plain_library-IsLibrary = record {
  unpack-pack = λ m conforms. ap (message_of m.descriptor) (decode_all-encode_all conforms);
  length-pack = λ m conforms. refl;
  invoked = λ hs k placed. ap call_handler placed;
  invoked_remote = λ d service k m request listed received. rw (listed, received) refl;
}
