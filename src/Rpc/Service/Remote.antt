-- ===== src/Rpc/Service/Remote.antt =====
-- A call of the client through the stubs, the bytes on the socket and the functions of the server.
use fuse_ext.Base.{
  ℕ, ◌≡◌, refl, ap, ◌∙◌, true, subst, some, List, [], ◌∷◌, get_elem?, Memory, IsBytes, Outcome, ok,
  fault, out_of_fuel, ◌>>=◌,
}
use fuse_ext.Rpc.{Request, read_dir, get_attr, read, write, Response}
use fuse_ext.Rpc.Structs.{
  Abi, MessageKind, read_dir_request, read_dir_response, get_attr_request, get_attr_response,
  read_request, read_response, write_request, write_response,
}
use fuse_ext.Rpc.Tables.{MethodDescriptor}
use fuse_ext.Rpc.Descriptors.{remote_ext2_descriptor, method_descriptors}
use fuse_ext.Rpc.Messages.{
  Message, query, response, members_of, kind_eq, kind_eq_refl, as_path, as_read, as_write,
  as_response,
}
use fuse_ext.Rpc.Messages.Typed.{IsRequest, IsSent, query-IsMessage, serve-IsSent}
use fuse_ext.Rpc.Library.{Handler, delivered, Library, IsLibrary}
use fuse_ext.Rpc.Service.{
  ProtobufCService, RemoteExt2Service, remote_ext2, remote_ext2_init, remote_ext2_read_dir,
  remote_ext2_get_attr, remote_ext2_read, remote_ext2_write,
}
use fuse_ext.Ext2.Geometry.{Fs}
use fuse_ext.Ext2.Resize.{Clusters}
use fuse_ext.Server.{serve, service_read_dir, service_get_attr, service_read, service_write}

-- A response of a handler is handed to the closure that packs it.
abbrev replied : Memory × Response → Outcome (Memory × Message)
replied (m, a) = ok (m, response a)

-- What the message that is handed to the closure of the client says.
abbrev pub answered : MessageKind → Memory × Message → Outcome (Memory × Response)
answered k (m, a) = do values ← members_of k a; r ← as_response k values; ok (m, r)

module _ (clusters : Clusters) (fs : Fs) where
  -- The functions of ext2_server.c that the service calls.
  abbrev pub read_dir_handler : Handler
  read_dir_handler m request = do
    values ← members_of read_dir_request request
    path ← as_path values
    r ← service_read_dir m fs path
    replied r

  abbrev pub get_attr_handler : Handler
  get_attr_handler m request = do
    values ← members_of get_attr_request request
    path ← as_path values
    r ← service_get_attr m fs path
    replied r

  abbrev pub read_handler : Handler
  read_handler m request = do
    values ← members_of read_request request
    fields ← as_read values
    r ← service_read m fs fields.0 fields.1 fields.2
    replied r

  abbrev pub write_handler : Handler
  write_handler m request = do
    values ← members_of write_request request
    fields ← as_write values
    r ← service_write clusters m fs fields.0 fields.1 fields.2
    replied r

  abbrev pub handlers : List Handler
  handlers = read_dir_handler ∷ get_attr_handler ∷ read_handler ∷ write_handler ∷ []

module _ (lib : Library) (clusters : Clusters) (fs : Fs) where
  abbrev pub ext2_service : RemoteExt2Service
  ext2_service =
      remote_ext2_init lib (read_dir_handler clusters fs) (get_attr_handler clusters fs)
        (read_handler clusters fs) (write_handler clusters fs)

  -- The service of the client, as protobuf_c_rpc_client_new makes it.
  abbrev pub service : ProtobufCService
  service = record {
    descriptor = remote_ext2;
    invoke = lib.invoke_remote remote_ext2_descriptor ext2_service.base.invoke;
  }

  -- The request through the stub for it, and the response that is handed to the closure.
  unfoldable pub call : Memory → Request → Outcome (Memory × Response)
  call m (read_dir path) =
      remote_ext2_read_dir service m (query (read_dir path)) >>= answered read_dir_response
  call m (get_attr path) =
      remote_ext2_get_attr service m (query (get_attr path)) >>= answered get_attr_response
  call m (read path offset length) =
      remote_ext2_read service m (query (read path offset length)) >>= answered read_response
  call m (write path offset buff) =
      remote_ext2_write service m (query (write path offset buff)) >>= answered write_response

module _ (abi : Abi) (lib : Library) (laws : IsLibrary abi lib) where
  -- A response that is sent comes back as it was.
  through :
      (k : MessageKind) (run : Outcome (Memory × Response))
      → ((x : Memory × Response) → run ≡ ok x → IsSent abi k x.1)
      → ((run >>= replied) >>= (λ r. delivered r.0 (lib.unpack k (lib.pack r.1))) >>= answered k)
        ≡ run
  through k fault sent = refl
  through k out_of_fuel sent = refl
  through k (ok (m, a)) sent =
      let (conforms, kind, back) = sent (m, a) refl in
      let unpacked : lib.unpack k (lib.pack (response a)) ≡ some (response a) =
        subst (λ t. lib.unpack t (lib.pack (response a)) ≡ some (response a)) kind
          (laws.unpack-pack (response a) conforms) in
      let same : kind_eq k (response a).descriptor ≡ true = rw kind (kind_eq_refl k) in
      rw unpacked (rw same (rw back refl))

  -- What a stub for the method k returns.
  stub :
      (hs : List Handler) (k : ℕ) (m : Memory) (r : Request) {method : MethodDescriptor}
      {h : Handler}
      → IsRequest r
      → get_elem? method_descriptors k ≡ some method
      → method.input ≡ (query r).descriptor
      → get_elem? hs k ≡ some h
      → lib.invoke_remote remote_ext2_descriptor (lib.invoke_internal hs) k m (query r)
        ≡ (h m (query r) >>= λ x. delivered x.0 (lib.unpack method.output (lib.pack x.1)))
  stub hs k m r {method} {h} sendable listed input placed =
      laws.invoked_remote remote_ext2_descriptor (lib.invoke_internal hs) k m (query r)
        {received = query r} listed
        (rw input (laws.unpack-pack (query r) (query-IsMessage abi r sendable)))
      ∙ rw (laws.invoked hs k placed) refl

  module _ (clusters : Clusters) (fs : Fs) where
    -- Let the RPC library do what is documented: a message that conforms to its descriptor is
    -- unpacked as it was packed, the method with the index of the call is invoked, and the bytes go
    -- by the descriptors of that method. Then, on a device of bytes, every request whose path has no
    -- NUL and whose numbers are below 2 ^ 32, called through its stub, gives exactly what the service
    -- does on the server, faults and lack of fuel included: the memory after the call and the
    -- response.
    pub call-serve :
        (m : Memory) (r : Request)
        → IsBytes m
        → IsRequest r
        → call lib clusters fs m r ≡ serve clusters m fs r
    unfolding call serve
    call-serve m (read_dir path) small sendable =
        ap (λ run. run >>= answered read_dir_response)
          (stub (handlers clusters fs) 0 m (read_dir path) sendable refl refl refl)
        ∙ through read_dir_response (service_read_dir m fs path)
            (λ x run. serve-IsSent abi clusters m fs (read_dir path) small run)
    call-serve m (get_attr path) small sendable =
        ap (λ run. run >>= answered get_attr_response)
          (stub (handlers clusters fs) 1 m (get_attr path) sendable refl refl refl)
        ∙ through get_attr_response (service_get_attr m fs path)
            (λ x run. serve-IsSent abi clusters m fs (get_attr path) small run)
    call-serve m (read path offset length) small sendable =
        ap (λ run. run >>= answered read_response)
          (stub (handlers clusters fs) 2 m (read path offset length) sendable refl refl refl)
        ∙ through read_response (service_read m fs path offset length)
            (λ x run. serve-IsSent abi clusters m fs (read path offset length) small run)
    call-serve m (write path offset buff) small sendable =
        ap (λ run. run >>= answered write_response)
          (stub (handlers clusters fs) 3 m (write path offset buff) sendable refl refl refl)
        ∙ through write_response (service_write clusters m fs path offset buff)
            (λ x run. serve-IsSent abi clusters m fs (write path offset buff) small run)
