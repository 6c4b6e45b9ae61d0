-- ===== src/Bitarray.antt =====
-- fuse_ext2_commons/src/bitarray.c and bitarray.h: bits in the bytes of a memory, the highest
-- bit of a byte first. The array's bytes lie at the address `bitarray`.
pub mod Laws
use fuse_ext.Base.{
  ℕ, ◌+◌, ◌-◌, ◌*◌, ◌/◌, ◌%◌, ◌^◌, bit_and, bit_or, Bool, not, leb, ◌==◌, if◌then◌else◌, char_bit,
  u32, Ptr, Memory, poke,
}

pub record Bitarray : Type 0 where
  pub bitarray : Ptr
  pub size : ℕ

abbrev pub bitarray_create : Ptr → ℕ → Bitarray
bitarray_create p n = record { bitarray = p; size = n }

-- BIT_CHAR
abbrev pub bit_char : ℕ → ℕ
bit_char bit = bit / char_bit

-- BIT_IN_CHAR
abbrev pub bit_in_char : ℕ → ℕ
bit_in_char bit = 2 ^ (char_bit - 1 - bit % char_bit)

unfoldable pub get_max_bit : Bitarray → ℕ
get_max_bit self = u32 (self.size * char_bit)

unfoldable pub test_bit : Memory → Bitarray → ℕ → Bool
test_bit m self bit = not (bit_and (m (self.bitarray + bit_char bit)) (bit_in_char bit) == 0)

unfoldable pub set_bit : Memory → Bitarray → ℕ → Memory
unfolding get_max_bit
set_bit m self bit =
    if leb (get_max_bit self) bit
    then m
    else (let p = self.bitarray + bit_char bit in poke m p (bit_or (m p) (bit_in_char bit)))

-- The mask is an unsigned char: `~` complements eight bits.
unfoldable pub clean_bit : Memory → Bitarray → ℕ → Memory
unfolding get_max_bit
clean_bit m self bit =
    if leb (get_max_bit self) bit
    then m
    else (let p = self.bitarray + bit_char bit in poke m p (bit_and (m p) (255 - bit_in_char bit)))
