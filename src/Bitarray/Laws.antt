-- ===== src/Bitarray/Laws.antt =====
-- The bit array against a plain array of Booleans.
use fuse_ext.Base.{
  ==_iff, fun_ext, ℕ, ◌+◌, ◌-◌, ◌*◌, ◌/◌, ◌%◌, ◌^◌, ◌≤◌, ◌<◌, bit_and, bit_or, ◌≡◌, refl, subst,
  ◌⊎◌, Bool, true, false, not, ◌==◌, if◌then◌else◌, Ptr, Memory, IsBytes, arith, holds_below,
  holds_below_lem, ◌&&◌, ltb,
}
use fuse_ext.Bitarray.{Bitarray, get_max_bit, test_bit, set_bit, clean_bit}

abbrev same : Bool → Bool → Bool
same true b = b
same false b = not b

-- The bit at position j of the byte x, from the highest.
abbrev holds : ℕ → ℕ → Bool
holds x j = not (bit_and x (2 ^ (7 - j)) == 0)

-- All bytes x, and all positions i and j in a byte, as one number.
abbrev rows : (ℕ → ℕ → ℕ → Bool) → ℕ → Bool
rows f n = f (n / 64) (n / 8 % 8) (n % 8)

rows_sound :
    (f : ℕ → ℕ → ℕ → Bool) (x i j : ℕ)
    → holds_below (rows f) 16384 ≡ true
    → x < 256
    → i < 8
    → j < 8
    → f x i j ≡ true
rows_sound f x i j table hx hi hj =
    let n = x * 64 + i * 8 + j in
    let row = holds_below_lem 16384 (rows f) n table (omega arith) in
    let ex : n / 64 ≡ x = omega arith in
    let ei : n / 8 % 8 ≡ i = omega arith in
    let ej : n % 8 ≡ j = omega arith in
    subst (λ t. f x i t ≡ true) ej
      (subst (λ t. f x t (n % 8) ≡ true) ei (subst (λ t. f t (n / 8 % 8) (n % 8) ≡ true) ex row))

abbrev set_row : ℕ → ℕ → ℕ → Bool
set_row x i j =
    let y = bit_or x (2 ^ (7 - i)) in
    ltb y 256 && same (holds y j) (if i == j then true else holds x j)

set_table : holds_below (rows set_row) 16384 ≡ true
unfolding holds_below
set_table = refl

abbrev clean_row : ℕ → ℕ → ℕ → Bool
clean_row x i j =
    let y = bit_and x (255 - 2 ^ (7 - i)) in
    ltb y 256 && same (holds y j) (if i == j then false else holds x j)

clean_table : holds_below (rows clean_row) 16384 ≡ true
unfolding holds_below
clean_table = refl

and-split : (a b : Bool) → (a && b) ≡ true → (a ≡ true) × (b ≡ true)
and-split a b h = ground arith

same-eq : (a b : Bool) → same a b ≡ true → a ≡ b
same-eq a b h = ground arith

byte_set :
    (x i j : ℕ)
    → x < 256
    → i < 8
    → j < 8
    → (bit_or x (2 ^ (7 - i)) < 256)
      × (holds (bit_or x (2 ^ (7 - i))) j ≡ (if i == j then true else holds x j))
byte_set x i j hx hi hj =
    let both =
      and-split (ltb (bit_or x (2 ^ (7 - i))) 256) _
        (rows_sound set_row x i j set_table hx hi hj) in
    (ground (arith, both.0), same-eq _ _ both.1)

byte_clean :
    (x i j : ℕ)
    → x < 256
    → i < 8
    → j < 8
    → (bit_and x (255 - 2 ^ (7 - i)) < 256)
      × (holds (bit_and x (255 - 2 ^ (7 - i))) j ≡ (if i == j then false else holds x j))
byte_clean x i j hx hi hj =
    let both =
      and-split (ltb (bit_and x (255 - 2 ^ (7 - i))) 256) _
        (rows_sound clean_row x i j clean_table hx hi hj) in
    (ground (arith, both.0), same-eq _ _ both.1)

abbrev again_row : ℕ → ℕ → ℕ → Bool
again_row x i j = if holds x i then bit_or x (2 ^ (7 - i)) == x else true

again_table : holds_below (rows again_row) 16384 ≡ true
unfolding holds_below
again_table = refl

byte_again : (x i : ℕ) → x < 256 → i < 8 → holds x i ≡ true → bit_or x (2 ^ (7 - i)) ≡ x
byte_again x i hx hi set =
    let row = rows_sound again_row x i 0 again_table hx hi (omega arith) in
    (==_iff (bit_or x (2 ^ (7 - i))) x).0 (rw set at row)

module _ (m : Memory) (self : Bitarray) (bit : ℕ) (bytes : IsBytes m) where
  -- In a memory of bytes, setting a bit in range makes that bit test true and leaves every other
  -- bit as it was; setting a bit out of range changes no bit.
  test_bit-set_bit :
      (other : ℕ)
      → test_bit (set_bit m self bit) self other
        ≡ (if ltb bit (get_max_bit self) && (bit == other) then true else test_bit m self other)
  unfolding test_bit set_bit
  test_bit-set_bit other =
      ground (arith, byte_set (m (self.bitarray + bit / 8)) (bit % 8) (other % 8) (bytes _))

  -- In a memory of bytes, clearing a bit in range makes that bit test false and leaves every
  -- other bit as it was; clearing a bit out of range changes no bit.
  test_bit-clean_bit :
      (other : ℕ)
      → test_bit (clean_bit m self bit) self other
        ≡ (if ltb bit (get_max_bit self) && (bit == other) then false else test_bit m self other)
  unfolding test_bit clean_bit
  test_bit-clean_bit other =
      ground (arith, byte_clean (m (self.bitarray + bit / 8)) (bit % 8) (other % 8) (bytes _))

  -- In a memory of bytes, neither setting nor clearing a bit writes outside the array, and both
  -- keep every byte below 256.
  set_bit-clean_bit_bounds :
      (a : Ptr)
      → ((a < self.bitarray) ⊎ (self.bitarray + self.size ≤ a)
          → (set_bit m self bit a ≡ m a) × (clean_bit m self bit a ≡ m a))
        × (set_bit m self bit a < 256)
        × (clean_bit m self bit a < 256)
  unfolding set_bit clean_bit
  set_bit-clean_bit_bounds a = (
    λ out. ground arith,
    ground (arith, bytes a, byte_set (m (self.bitarray + bit / 8)) (bit % 8) (bit % 8) (bytes _)),
    ground (arith, bytes a, byte_clean (m (self.bitarray + bit / 8)) (bit % 8) (bit % 8) (bytes _)),
  )

  -- In a memory of bytes, a bit that is set tests true and a bit that is cleared tests false, every
  -- other bit tests as before, and a bit out of range is not changed at all; neither operation
  -- writes outside the array, and both keep every byte below 256.
  pub test_bit-set_bit-clean_bit :
      (other : ℕ) (a : Ptr)
      → (test_bit (set_bit m self bit) self other
          ≡ (if ltb bit (get_max_bit self) && (bit == other) then true else test_bit m self other))
        × (test_bit (clean_bit m self bit) self other ≡ (
            if ltb bit (get_max_bit self) && (bit == other) then false else test_bit m self other))
        × ((a < self.bitarray) ⊎ (self.bitarray + self.size ≤ a)
            → (set_bit m self bit a ≡ m a) × (clean_bit m self bit a ≡ m a))
        × (set_bit m self bit a < 256)
        × (clean_bit m self bit a < 256)
  test_bit-set_bit-clean_bit other a =
      let (outside, set, clean) = set_bit-clean_bit_bounds a in
      (test_bit-set_bit other, test_bit-clean_bit other, outside, set, clean)

  -- Setting a bit that is set already changes nothing at all.
  pub set_bit_again : test_bit m self bit ≡ true → set_bit m self bit ≡ m
  unfolding test_bit set_bit
  set_bit_again set =
      fun_ext λ a. ground (arith, byte_again (m (self.bitarray + bit / 8)) (bit % 8) (bytes _))
