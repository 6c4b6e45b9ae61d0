-- ===== src/Base/Word.antt =====
-- The fixed widths of C: what a cast or a wrap-around keeps of a number.
use Prim.Native.Nat.{ℕ, ◌-◌, ◌+◌, ◌%◌, ◌^◌}

abbrev pub u16 : ℕ → ℕ
u16 n = n % 2 ^ 16

abbrev pub u32 : ℕ → ℕ
u32 n = n % 2 ^ 32

-- `a - b` on uint32_t.
abbrev pub sub_u32 : ℕ → ℕ → ℕ
sub_u32 a b = (a + 2 ^ 32 - u32 b) % 2 ^ 32

-- CHAR_BIT of limits.h.
abbrev pub char_bit : ℕ
char_bit = 8
