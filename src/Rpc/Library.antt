-- ===== src/Rpc/Library.antt =====
-- protobuf-c and its RPC library, which are not part of the repository, as parameters, and what
-- their documentation says of the functions that are called.
use fuse_ext.Base.{
  ℕ, ◌≡◌, Option, none, some, List, length, get_elem?, Memory, Outcome, ok, fault, ◌>>=◌,
}
use fuse_ext.Rpc.Structs.{Abi, MessageKind}
use fuse_ext.Rpc.Tables.{ServiceDescriptor, MethodDescriptor}
use fuse_ext.Rpc.Messages.{Message}
use fuse_ext.Rpc.Messages.Typed.{IsMessage}

-- A method of a service: from the memory of the device and the message of the request to the memory
-- after the call and the message that is handed to the closure.
abbrev pub Handler : Type 0
Handler = Memory → Message → Outcome (Memory × Message)

-- The closure of the RPC library takes NULL for a response that cannot be unpacked, and the
-- closures of this program read it all the same.
abbrev pub delivered : Memory → Option Message → Outcome (Memory × Message)
delivered m none = fault
delivered m (some response) = ok (m, response)

pub record Library : Type 0 where
  -- protobuf_c_message_get_packed_size, _pack and _unpack
  pub get_packed_size : Message → ℕ
  pub pack : Message → List ℕ
  pub unpack : MessageKind → List ℕ → Option Message
  -- protobuf_c_service_invoke_internal, by the functions behind `base` in the struct
  pub invoke_internal : List Handler → ℕ → Handler
  -- `invoke` of a client of protobuf_c_rpc_client_new that is connected to a server of the service
  pub invoke_remote : ServiceDescriptor → (ℕ → Handler) → ℕ → Handler

-- What the program relies on.
pub record IsLibrary (abi : Abi) (lib : Library) : Type 0 where
  -- a message that conforms to its descriptor is unpacked as it was packed, in the size announced
  pub unpack-pack : (m : Message) → IsMessage abi m → lib.unpack m.descriptor (lib.pack m) ≡ some m
  pub length-pack : (m : Message) → IsMessage abi m → length (lib.pack m) ≡ lib.get_packed_size m
  -- the function with that index is called
  pub invoked :
      (hs : List Handler) (k : ℕ) {h : Handler}
      → get_elem? hs k ≡ some h
      → lib.invoke_internal hs k ≡ h
  -- the bytes of the request are unpacked as the input of the method, the service is invoked, and
  -- the bytes of its response are unpacked as the output of the method
  pub invoked_remote :
      (d : ServiceDescriptor) (service : ℕ → Handler) (k : ℕ) (m : Memory) (request : Message)
      {method : MethodDescriptor} {received : Message}
      → get_elem? d.methods k ≡ some method
      → lib.unpack method.input (lib.pack request) ≡ some received
      → lib.invoke_remote d service k m request
        ≡ (service k m received >>= λ r. delivered r.0 (lib.unpack method.output (lib.pack r.1)))
