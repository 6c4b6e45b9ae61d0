-- ===== src/Rpc/Messages/Typed.antt =====
-- The messages that are sent conform to their descriptors.
use fuse_ext.Base.{
  read32_small, ℕ, ◌+◌, ◌<◌, ◌^◌, ◌≡◌, refl, ap, subst, Bool, true, false, Bool-cases, inl, inr,
  ◌==◌, if◌then◌else◌, Option, none, some, List, [], ◌∷◌, bit_or, u32, Ptr, Memory, IsBytes, read16,
  arith, ok, ◌>>=◌, >>=-eq-ok, ok-injective,
}
use fuse_ext.Rpc.{
  Request, read_dir, get_attr, read, write, GetAttrResponse, Response, entries, attributes, content,
  written,
}
use fuse_ext.Rpc.Structs.{
  Abi, MessageKind, read_dir_response, get_attr_response, read_response, write_response,
}
use fuse_ext.Rpc.Tables.{Label, required, repeated, FieldType, FieldDescriptor}
use fuse_ext.Rpc.Descriptors.{descriptor}
use fuse_ext.Rpc.Messages.{Value, Message, query, response, as_response}
use fuse_ext.Ext2.Layout.{inode_at, has_mode_flag, ext2_ifdir}
use fuse_ext.Ext2.Geometry.{Fs}
use fuse_ext.Ext2.Resize.{Clusters}
use fuse_ext.Ext2.Directory.{InodeEntry, c_string, get_element_inode, list_dir}
use fuse_ext.Server.{
  serve, names, attributes_of, get_attr_response as attributes_at, service_read_dir,
  service_get_attr, service_read, service_write, read_element, write_element,
}

-- A string of C: no NUL before its end.
abbrev pub IsString : List ℕ → Type 0
IsString [] = Unit
IsString (c ∷ s) = (0 < c) × IsString s

abbrev pub AreStrings : List (List ℕ) → Type 0
AreStrings [] = Unit
AreStrings (s ∷ ss) = IsString s × AreStrings ss

-- What a field of a descriptor may hold when the message is packed.
pub data IsValue : Label → FieldType → Value → Type 0 where
  string : {s : List ℕ} → IsString s → IsValue required FieldType.string (Value.string s)
  bool : {b : Bool} → IsValue required FieldType.bool (Value.bool b)
  uint32 : {n : ℕ} → n < 2 ^ 32 → IsValue required FieldType.uint32 (Value.uint32 n)
  bytes : {bs : List ℕ} → IsValue required FieldType.bytes (Value.bytes bs)
  strings :
      {ss : List (List ℕ)} → AreStrings ss → IsValue repeated FieldType.string (Value.strings ss)

pub data AreValues : List FieldDescriptor → List Value → Type 0 where
  end : AreValues [] []
  field :
      {f : FieldDescriptor} {fs : List FieldDescriptor} {v : Value} {vs : List Value}
      → IsValue f.label f.of_type v
      → AreValues fs vs
      → AreValues (f ∷ fs) (v ∷ vs)

-- The values of the message are, field by field, those that its descriptor asks for.
abbrev pub IsMessage : Abi → Message → Type 0
IsMessage abi m = AreValues (descriptor abi m.descriptor).fields m.values

-- A request as the client may send it.
abbrev pub IsRequest : Request → Type 0
IsRequest (read_dir path) = IsString path
IsRequest (get_attr path) = IsString path
IsRequest (read path offset length) = IsString path × (offset < 2 ^ 32) × (length < 2 ^ 32)
IsRequest (write path offset buff) = IsString path × (offset < 2 ^ 32)

-- The descriptors of the request and of its response in the method of the service.
abbrev pub response_kind : Request → MessageKind
response_kind (read_dir path) = read_dir_response
response_kind (get_attr path) = get_attr_response
response_kind (read path offset length) = read_response
response_kind (write path offset buff) = write_response

pub query-IsMessage : (abi : Abi) (r : Request) → IsRequest r → IsMessage abi (query r)
query-IsMessage abi (read_dir path) ok_path = field (string ok_path) end
query-IsMessage abi (get_attr path) ok_path = field (string ok_path) end
query-IsMessage abi (read path offset length) (ok_path, small, short) =
    field (string ok_path) (field (uint32 small) (field (uint32 short) end))
query-IsMessage abi (write path offset buff) (ok_path, small) =
    field (string ok_path) (field (uint32 small) (field bytes end))

c_string-IsString : (s : List ℕ) → IsString (c_string s)
c_string-IsString [] = tt
c_string-IsString (c ∷ s) = elim (Bool-cases (c == 0)) [
  | inl e ↦ rw e tt
  | inr e ↦ rw e (ground arith, c_string-IsString s)
]

names-AreStrings : (es : Option (List InodeEntry)) → AreStrings (names es)
names-AreStrings none = tt
names-AreStrings (some []) = tt
names-AreStrings (some (e ∷ es)) = (c_string-IsString e.name, names-AreStrings (some es))

-- The numbers of the attributes fit the fields.
IsSmall : GetAttrResponse → Type 0
IsSmall r = (r.mode < 2 ^ 32) × (r.nlinks < 2 ^ 32) × (r.blocks < 2 ^ 32) × (r.size < 2 ^ 32)

-- A response that protobuf-c can pack for the method and that the closure reads as it was meant.
abbrev pub IsSent : Abi → MessageKind → Response → Type 0
IsSent abi k a =
    IsMessage abi (response a)
    × ((response a).descriptor ≡ k)
    × (as_response k (response a).values ≡ ok a)

attributes-IsSent :
    (abi : Abi) (r : GetAttrResponse) → IsSmall r → IsSent abi get_attr_response (attributes r)
unfolding IsSmall
attributes-IsSent abi r (mode, nlinks, blocks, size) =
    let small : (n : ℕ) → u32 n < 2 ^ 32 = λ n. omega arith in
    let same : (n : ℕ) → n < 2 ^ 32 → u32 n ≡ n = λ n h. omega arith in
    (
      field bool (
          field (uint32 (omega arith)) (
            field bool (
              field (uint32 (small r.mode)) (
                field (uint32 (small r.nlinks))
                  (field (uint32 (small r.blocks)) (field (uint32 (small r.size)) end)))))),
      refl,
      λ i. ok (
          attributes (record {
            fileexist = r.fileexist;
            mode = same r.mode mode i;
            nlinks = same r.nlinks nlinks i;
            blocks = same r.blocks blocks i;
            size = same r.size size i;
          })),
    )

read16_small : (m : Memory) (p : Ptr) → IsBytes m → read16 m p < 2 ^ 32
read16_small m p small = omega (arith, small p, small (p + 1))

by_kind :
    (b : Bool)
    → (if b then bit_or 0o040000 0o444 else bit_or (bit_or 0o100000 0o444) 0o222) < 2 ^ 32
by_kind true = omega arith
by_kind false = omega arith

attributes_at-IsSmall : (m : Memory) (e : Option Ptr) → IsBytes m → IsSmall (attributes_at m e)
unfolding IsSmall attributes_of
attributes_at-IsSmall m none small = (omega arith, omega arith, omega arith, omega arith)
attributes_at-IsSmall m (some p) small = (
  by_kind (has_mode_flag (inode_at m p) ext2_ifdir),
  read16_small m (p + 26) small,
  read32_small m (p + 28) small,
  read32_small m (p + 4) small,
)

-- On a device of bytes, every response that a service hands over conforms to the descriptor that
-- the method has for it, field by field: numbers below 2 ^ 32, strings without a NUL; and the members
-- of the struct of that type, read back, are the response.
pub serve-IsSent :
    (abi : Abi) (clusters : Clusters) (m : Memory) (fs : Fs) (r : Request) {after : Memory}
    {a : Response}
    → IsBytes m
    → serve clusters m fs r ≡ ok (after, a)
    → IsSent abi (response_kind r) a
unfolding serve service_read_dir service_get_attr service_read service_write
serve-IsSent abi clusters m fs (read_dir path) {after} {a} small run =
    let (es, listed, result) =
      >>=-eq-ok (list_dir m fs path) (λ es. ok (m, entries (names es))) run in
    let same = ap (λ (x : Memory × Response). x.1) (ok-injective result) in
    subst (IsSent abi read_dir_response) same (
      field bool (field (uint32 (omega arith)) (field (strings (names-AreStrings es)) end)),
      refl,
      refl,
    )
serve-IsSent abi clusters m fs (get_attr path) {after} {a} small run =
    let (e, found, result) =
      >>=-eq-ok (get_element_inode m fs path) (λ e. ok (m, attributes (attributes_at m e))) run in
    let same = ap (λ (x : Memory × Response). x.1) (ok-injective result) in
    subst (IsSent abi get_attr_response) same
      (attributes-IsSent abi (attributes_at m e) (attributes_at-IsSmall m e small))
serve-IsSent abi clusters m fs (read path offset length) small run =
    let (e, found, rest) =
      >>=-eq-ok (get_element_inode m fs path)
        (λ e. read_element m fs e offset length >>= λ r. ok (m, content r)) run in
    let (r, done, result) =
      >>=-eq-ok (read_element m fs e offset length) (λ r. ok (m, content r)) rest in
    let same = ap (λ (x : Memory × Response). x.1) (ok-injective result) in
    subst (IsSent abi read_response) same
      (field bytes (field bool (field (uint32 (omega arith)) end)), refl, refl)
serve-IsSent abi clusters m fs (write path offset buff) small run =
    let (e, found, rest) =
      >>=-eq-ok (get_element_inode m fs path)
        (λ e. write_element clusters m fs e offset buff >>= λ r. ok (r.0, written r.1)) run in
    let (r, done, result) =
      >>=-eq-ok (write_element clusters m fs e offset buff) (λ r. ok (r.0, written r.1)) rest in
    let same = ap (λ (x : Memory × Response). x.1) (ok-injective result) in
    subst (IsSent abi write_response) same
      (field bool (field (uint32 (omega arith)) end), refl, refl)
