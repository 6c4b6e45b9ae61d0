-- ===== src/Rpc/Service/Session.antt =====
-- Many calls of a client, one after the other.
use fuse_ext.Base.{
  ◌≡◌, refl, ap, List, [], ◌∷◌, Memory, IsBytes, Outcome, ok, fault, out_of_fuel, ◌>>=◌,
}
use fuse_ext.Rpc.{Request, Response}
use fuse_ext.Rpc.Structs.{Abi}
use fuse_ext.Rpc.Messages.Typed.{IsRequest}
use fuse_ext.Rpc.Library.{Library, IsLibrary}
use fuse_ext.Rpc.Service.Remote.{call, call-serve}
use fuse_ext.Ext2.Geometry.{Fs}
use fuse_ext.Ext2.Resize.{Clusters}
use fuse_ext.Ext2.Data.Bytes.{KeepBytes}
use fuse_ext.Server.{serve, serve_all}
use fuse_ext.Server.Bytes.{HasBytes, serve-IsBytes}

-- The calls in their order: the memory after the last and the responses.
unfoldable pub call_all :
    Library → Clusters → Fs → Memory → List Request → Outcome (Memory × List Response)
call_all lib clusters fs m [] = ok (m, [])
call_all lib clusters fs m (r ∷ rs) = do
  first ← call lib clusters fs m r
  rest ← call_all lib clusters fs first.0 rs
  ok (rest.0, first.1 ∷ rest.1)

abbrev more : Memory × Response → Memory × List Response → Outcome (Memory × List Response)
more first rest = ok (rest.0, first.1 ∷ rest.1)

-- Requests as a client sends them: paths without NUL, numbers of 32 bits, data of bytes.
abbrev pub AreRequests : List Request → Type 0
AreRequests [] = Unit {0}
AreRequests (r ∷ rs) = (IsRequest r × HasBytes r) × AreRequests rs

module _ (abi : Abi) (lib : Library) (laws : IsLibrary abi lib) (clusters : Clusters)
    (keep : KeepBytes clusters) (fs : Fs) where
  -- Let the RPC library do what is documented (a message that conforms to its descriptor is
  -- unpacked as it was packed, the method with the index of the call is invoked, and the bytes go by
  -- the descriptors of that method), and let the functions for clusters keep a device of bytes one.
  -- Then on a device of bytes any session of requests whose paths have no NUL, whose numbers are
  -- below 2 ^ 32 and whose data are bytes, each called through its stub, gives exactly what the
  -- services do one after the other on the server, faults and lack of fuel included: the memory
  -- in the end and all the responses.
  pub call_all-serve_all :
      (m : Memory) (rs : List Request)
      → IsBytes m
      → AreRequests rs
      → call_all lib clusters fs m rs ≡ serve_all clusters m fs rs
  unfolding call_all serve_all
  call_all-serve_all m [] bytes sendable = refl
  call_all-serve_all m (r ∷ rs) bytes ((request, data_bytes), others) =
      rw (call-serve abi lib laws clusters fs m r bytes request) (
        next (serve clusters m fs r) (λ first run.
          call_all-serve_all first.0 rs (serve-IsBytes clusters keep m fs bytes r data_bytes run)
            others))
    where
      next :
          (run : Outcome (Memory × Response))
          → ((first : Memory × Response)
              → run ≡ ok first
              → call_all lib clusters fs first.0 rs ≡ serve_all clusters first.0 fs rs)
          → (run >>= λ first. call_all lib clusters fs first.0 rs >>= λ rest. more first rest)
            ≡ (run >>= λ first. serve_all clusters first.0 fs rs >>= λ rest. more first rest)
      next fault same = refl
      next out_of_fuel same = refl
      next (ok first) same = ap (λ t. t >>= λ rest. more first rest) (same first refl)
