-- ===== src/Client/Stray.antt =====
-- The closure of fuse_ext2_write takes the response for an RpcLayer__ReadResponse, and the server
-- answers with an RpcLayer__WriteResponse: where `result->error` is read.
use fuse_ext.Base.{ℕ, ◌+◌, ◌%◌, ◌≤◌, ◌≡◌, refl, sym, subst, ◌⊎◌, inl, inr, some, arith}
use fuse_ext.Rpc.Structs.{
  Abi, read_response, write_response, offsetof, sizeof, struct_end, offset_in,
}

-- The sizes of 32-bit and of 64-bit machines; the base is a struct with pointers.
abbrev pub IsAbi : Abi → Type 0
IsAbi abi = ((abi.pointer ≡ 4) ⊎ (abi.pointer ≡ 8)) × (abi.base % abi.pointer ≡ 0)

module _ (base : ℕ) where
  with_pointer : ℕ → Abi
  with_pointer p = record { pointer = p; base = base }

  -- Where the four bytes of `error` lie in the struct of a response and in that of the other.
  IsStray : Abi → Type 0
  IsStray abi =
      (own : ℕ) × (at : ℕ) × (offsetof abi write_response "error" ≡ some own)
      × (own + 4 ≤ sizeof abi write_response)
      × (offsetof abi read_response "error" ≡ some at)
      × (sizeof abi write_response ≤ at)

  four : base % 4 ≡ 0 → IsStray (with_pointer 4)
  unfolding with_pointer IsStray offset_in struct_end
  four whole = (_, _, refl, omega arith, refl, omega arith)

  eight : base % 8 ≡ 0 → IsStray (with_pointer 8)
  unfolding with_pointer IsStray offset_in struct_end
  eight whole = (_, _, refl, omega arith, refl, omega arith)

-- On a machine of 32 or of 64 bits, `error` of the response to a write lies inside the message, but
-- the place from which the closure of fuse_ext2_write reads it, that of `error` in a ReadResponse,
-- lies past the end of the message.
pub offsetof-stray :
    (abi : Abi)
    → IsAbi abi
    → (own : ℕ) × (at : ℕ) × (offsetof abi write_response "error" ≡ some own)
      × (own + 4 ≤ sizeof abi write_response)
      × (offsetof abi read_response "error" ≡ some at)
      × (sizeof abi write_response ≤ at)
unfolding with_pointer IsStray
offsetof-stray abi (inl narrow, whole) =
    subst (λ p. IsStray abi.base (with_pointer abi.base p)) (sym narrow)
      (four abi.base (rw narrow at whole))
offsetof-stray abi (inr wide, whole) =
    subst (λ p. IsStray abi.base (with_pointer abi.base p)) (sym wide)
      (eight abi.base (rw wide at whole))
