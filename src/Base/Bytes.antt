-- ===== src/Base/Bytes.antt =====
-- Byte-addressed memory: the mapped device, from address 0 on. A read gives the byte, a write
-- changes one address.
use Prim.Native.Nat.{ℕ, zero, suc, ◌+◌, ◌^◌, ◌*◌, ◌<◌, ◌≤◌}
use mathlib.Core.Path.{◌≡◌, refl, sym, ap, ◌∙◌}
use mathlib.Core.Logic.{◌⊎◌, inl}
use native.Mathlib.Omega.{arith}
use mathlib.Core.List.{List, [], ◌∷◌}
use fuse_ext.Base.Tests.{◌==◌, if◌then◌else◌}
use fuse_ext.Base.Lists.{length, get_or}

abbrev pub Ptr : Type 0
Ptr = ℕ

abbrev pub Memory : Type 0
Memory = Ptr → ℕ

abbrev pub IsBytes : Memory → Type 0
IsBytes m = (a : Ptr) → m a < 256

-- `*p = v` for a byte.
abbrev pub poke : Memory → Ptr → ℕ → Memory
poke m p v a = if a == p then v else m a

-- `memcpy(buff, p, n)`: the bytes that are copied out.
abbrev pub bytes_at : Memory → Ptr → ℕ → List ℕ
bytes_at m p zero = []
bytes_at m p (suc n) = m p ∷ bytes_at m (p + 1) n

-- `memcpy(p, buff, length)`: the memory with the bytes copied in.
abbrev pub copy_in : Memory → Ptr → List ℕ → Memory
copy_in m p [] = m
copy_in m p (x ∷ xs) = copy_in (poke m p x) (p + 1) xs

-- Little-endian fields of a packed struct.
abbrev pub read16 : Memory → Ptr → ℕ
read16 m p = m p + 256 * m (p + 1)

abbrev pub read32 : Memory → Ptr → ℕ
read32 m p = m p + 256 * m (p + 1) + 65536 * m (p + 2) + 16777216 * m (p + 3)

pub length-bytes_at : (m : Memory) (p n : ℕ) → length (bytes_at m p n) ≡ n
length-bytes_at m p zero = refl
length-bytes_at m p (suc n) = ap suc (length-bytes_at m (p + 1) n)

pub copy_in_outside :
    (m : Memory) (p : Ptr) (xs : List ℕ) (a : Ptr)
    → (a < p) ⊎ (p + length xs ≤ a)
    → copy_in m p xs a ≡ m a
copy_in_outside m p [] a out = refl
copy_in_outside m p (x ∷ xs) a out =
    let next : (a < p + 1) ⊎ (p + 1 + length xs ≤ a) = ground arith in
    copy_in_outside (poke m p x) (p + 1) xs a next ∙ ground arith

pub copy_in_inside :
    (m : Memory) (p : Ptr) (xs : List ℕ) (i : ℕ)
    → i < length xs
    → copy_in m p xs (p + i) ≡ get_or xs i 0
copy_in_inside m p [] i h = absurd (omega arith)
copy_in_inside m p (x ∷ xs) zero h =
    let out : (p + 0 < p + 1) ⊎ (p + 1 + length xs ≤ p + 0) = inl (omega arith) in
    copy_in_outside (poke m p x) (p + 1) xs (p + 0) out ∙ ground arith
copy_in_inside m p (x ∷ xs) (suc i) h =
    let e : p + suc i ≡ p + 1 + i = omega arith in
    rw e (copy_in_inside (poke m p x) (p + 1) xs i (omega arith))

pub read32-same :
    (m m' : Memory) (p : Ptr)
    → ((i : ℕ) → i < 4 → m (p + i) ≡ m' (p + i))
    → read32 m p ≡ read32 m' p
read32-same m m' p same =
    let e : p + 0 ≡ p = omega arith in
    let first : m p ≡ m' p = ap m (sym e) ∙ same 0 (omega arith) ∙ ap m' e in
    omega (arith, first, same 1 (omega arith), same 2 (omega arith), same 3 (omega arith))

-- What is read from bytes fits its width.
pub read32_small : (m : Memory) (p : Ptr) → IsBytes m → read32 m p < 2 ^ 32
read32_small m p small = omega (arith, small p, small (p + 1), small (p + 2), small (p + 3))
