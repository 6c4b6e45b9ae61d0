-- ===== src/Ext2/FreeBlocks/Laws.antt =====
-- What the search for free blocks finds.
use fuse_ext.Base.{
  ℕ, zero, suc, ◌+◌, ◌-◌, ◌/◌, ◌≤◌, ◌<◌, ◌≡◌, ◌≢◌, refl, sym, subst, ap, ap₂, ◌∙◌, Bool, true,
  false, ltb, if◌then◌else◌, some, List, [], ◌∷◌, ◌++◌, append_assoc, append-nil, length,
  length-append, length-map, map, u16, Memory, IsBytes, arith, ok, fault, Bool-cases, inl, inr,
  lt→ltb, le→ltb, ltb→lt, ltb→le, ne→==,
}
use native.Mathlib.Nat.{zero-add}
use fuse_ext.Bitarray.{Bitarray, get_max_bit, test_bit}
use fuse_ext.Bitarray.Laws.{set_bit_again}
use fuse_ext.Ext2.Layout.{superblock_at}
use fuse_ext.Ext2.Geometry.{Fs, has_superblock}
use fuse_ext.Ext2.Groups.{BlockGroup}
use fuse_ext.Ext2.Groups.Laws.{start_of}
use fuse_ext.Ext2.FreeBlocks.{
  group_offset_loop, get_block_group_offset, free_bits_loop, get_free_blocks_in_group,
}

-- The offset of a group is the first data block, whatever the group. The loop ends.
group_offset_loop-same :
    (m : Memory) (self : Fs) (g fuel index : ℕ)
    → (superblock_at m self.superblock).inode_size ≢ 0
    → g - index < fuel
    → group_offset_loop m self g fuel index ≡ ok (superblock_at m self.superblock).first_data_block
unfolding group_offset_loop
group_offset_loop-same m self g zero index sized enough = elim enough [ ]
group_offset_loop-same m self g (suc fuel) index sized enough =
    let bs = self.block_size / (superblock_at m self.superblock).inode_size in
    let header : ℕ = if has_superblock g then 2 else 0 in
    let next = index + header + 2 + bs + (superblock_at m self.superblock).blockper_group + 1 in
    elim (Bool-cases (ltb index g)) [
      | inl e ↦
          let more = ltb→lt index g e in
          rw (e, ne→== _ 0 sized) (group_offset_loop-same m self g fuel next sized (omega arith))
      | inr e ↦ rw e
    ]

-- The offset of every group is the first data block of the whole device.
pub get_block_group_offset-same :
    (m : Memory) (self : Fs) (g : ℕ)
    → (superblock_at m self.superblock).inode_size ≢ 0
    → get_block_group_offset m self g ≡ ok (superblock_at m self.superblock).first_data_block
unfolding get_block_group_offset
get_block_group_offset-same m self g sized =
    group_offset_loop-same m self (u16 g) (u16 g + 1) 0 sized (omega arith)

-- The numbers of the bits that are set, `left` bits from `index` on.
unfoldable pub used_bits : Memory → Bitarray → ℕ → ℕ → List ℕ
used_bits m bitmap zero index = []
used_bits m bitmap (suc left) index =
    let rest = used_bits m bitmap left (index + 1) in
    if test_bit m bitmap index then index ∷ rest else rest

-- Each of them is set, and inside.
abbrev pub All {ℓ κ} : {A : Type ℓ} → (A → Type κ) → List A → Type κ
All P [] = Unit
All P (x ∷ xs) = P x × All P xs

module _ (self : Fs) (bitmap : Bitarray) (amount offset : ℕ) (m : Memory) (bytes : IsBytes m) where
  free_bits_loop-used :
      (left index : ℕ) (filled : List ℕ)
      → length filled ≤ amount
      → free_bits_loop self bitmap amount offset left index m filled ≡ (
          if ltb amount (length filled + length (used_bits m bitmap left index))
          then fault
          else ok (m, filled ++ map (λ i. offset + i) (used_bits m bitmap left index)))
  unfolding free_bits_loop used_bits
  free_bits_loop-used zero index filled room =
      rw (le→ltb amount (length filled + 0) (omega arith), append-nil)
  free_bits_loop-used (suc left) index filled room = elim (Bool-cases (test_bit m bitmap index)) [
    | inl e ↦
        rw (e, set_bit_again m bitmap index bytes e)
          (elim (Bool-cases (ltb (length filled) amount)) [
            | inl f ↦
                let x = offset + index in
                let more = ltb→lt (length filled) amount f in
                let count : length (filled ++ x ∷ []) ≡ suc (length filled) =
                  omega (arith, length-append filled (x ∷ [])) in
                let rest = used_bits m bitmap left (index + 1) in
                let sum : suc (length filled) + length rest ≡ length filled + suc (length rest) =
                  omega arith in
                rw f (
                  free_bits_loop-used left (index + 1) (filled ++ x ∷ []) (omega arith)
                  ∙ rw (count, sum, append_assoc))
            | inr f ↦
                let full = ltb→le (length filled) amount f in
                rw (
                  f,
                  lt→ltb amount (length filled + suc (length (used_bits m bitmap left (index + 1))))
                      (omega arith),
                )
          ])
    | inr e ↦ rw e (free_bits_loop-used left (index + 1) filled room)
  ]

-- What the search of a group returns, as an equation.
get_free_blocks_in_group-set :
    (m : Memory) (self : Fs) (group : BlockGroup) (amount : ℕ) {bitmap : Bitarray}
    → group.block_bitmap ≡ some bitmap
    → (superblock_at m self.superblock).inode_size ≢ 0
    → IsBytes m
    → let used = used_bits m bitmap (get_max_bit bitmap) 0 in
      get_free_blocks_in_group m self (some group) amount ≡ (
        if ltb amount (length used)
        then fault
        else ok (m, map (λ i. (superblock_at m self.superblock).first_data_block + i) used))
unfolding get_free_blocks_in_group
get_free_blocks_in_group-set m self group amount {bitmap} has sized bytes =
    rw (has, get_block_group_offset-same m self (group.number + 1) sized)
      (free_bits_loop-used self bitmap amount (superblock_at m self.superblock).first_data_block m
          bytes (get_max_bit bitmap) 0 [] (omega arith)
        ∙ rw (zero-add (length (used_bits m bitmap (get_max_bit bitmap) 0))))

used_bits-set :
    (m : Memory) (bitmap : Bitarray) (left index : ℕ)
    → All (λ i. (test_bit m bitmap i ≡ true) × (i < index + left)) (used_bits m bitmap left index)
unfolding used_bits
used_bits-set m bitmap zero index = tt
used_bits-set m bitmap (suc left) index =
    let e : index + suc left ≡ index + 1 + left = omega arith in
    rw e (elim (Bool-cases (test_bit m bitmap index)) [
      | inl set ↦ rw set ((set, omega arith), used_bits-set m bitmap left (index + 1))
      | inr clear ↦ rw clear (used_bits-set m bitmap left (index + 1))
    ])

All-map :
    (P Q : ℕ → Type 0) (f : ℕ → ℕ) (xs : List ℕ)
    → ((x : ℕ) → P x → Q (f x))
    → All P xs
    → All Q (map f xs)
All-map P Q f [] step h = tt
All-map P Q f (x ∷ xs) step h = (step x h.0, All-map P Q f xs step h.1)

result_lem : {A : Type 0} (b : Bool) {r s : A} → (if b then fault else ok r) ≡ ok s → r ≡ s
result_lem true h = cc
result_lem false h = cc

-- For a group with a block bitmap, in a memory of bytes and with an inode size that is not 0:
-- each number that a search that returns gives as free is first_data_block plus the number of a
-- bit that is set in the group's bitmap, and memory is as before.
pub get_free_blocks_in_group-not_free :
    (m after : Memory) (self : Fs) (group : BlockGroup) (amount : ℕ) (found : List ℕ)
    {bitmap : Bitarray}
    → group.block_bitmap ≡ some bitmap
    → (superblock_at m self.superblock).inode_size ≢ 0
    → IsBytes m
    → get_free_blocks_in_group m self (some group) amount ≡ ok (after, found)
    → (after ≡ m)
      × All
          (λ block.
            (i : ℕ) × (block ≡ (superblock_at m self.superblock).first_data_block + i)
            × (test_bit m bitmap i ≡ true)
            × (i < get_max_bit bitmap))
          found
get_free_blocks_in_group-not_free m after self group amount found {bitmap} has sized bytes run =
    let first = (superblock_at m self.superblock).first_data_block in
    let used = used_bits m bitmap (get_max_bit bitmap) 0 in
    let result =
      result_lem (ltb amount (length used))
        (sym (get_free_blocks_in_group-set m self group amount has sized bytes) ∙ run) in
    let Given : ℕ → Type 0 = λ i. (test_bit m bitmap i ≡ true) × (i < 0 + get_max_bit bitmap) in
    let Wanted : ℕ → Type 0 = λ block.
      (i : ℕ) × (block ≡ first + i) × (test_bit m bitmap i ≡ true) × (i < get_max_bit bitmap) in
    (
      sym (ap (λ r. r.0) result),
      subst (All Wanted) (ap (λ r. r.1) result) (
          All-map Given Wanted (λ i. first + i) used (λ i h. (i, refl, h.0, omega arith))
            (used_bits-set m bitmap (get_max_bit bitmap) 0)),
    )

-- The blocks in use of a group, by its bitmap: bit i stands for block i of the group.
abbrev pub blocks_in_use : Memory → Fs → BlockGroup → Bitarray → List ℕ
blocks_in_use m self group bitmap =
    map (λ i. start_of m self group.number + i) (used_bits m bitmap (get_max_bit bitmap) 0)

-- What is returned for them, from the first data block of the whole device on.
abbrev pub blocks_given : Memory → Fs → Bitarray → List ℕ
blocks_given m self bitmap =
    map (λ i. (superblock_at m self.superblock).first_data_block + i)
      (used_bits m bitmap (get_max_bit bitmap) 0)

shifts_meet :
    (a b : ℕ) (xs : List ℕ)
    → map (λ n. n + b) (map (λ i. a + i) xs) ≡ map (λ n. n + a) (map (λ i. b + i) xs)
shifts_meet a b [] = refl
shifts_meet a b (x ∷ xs) =
    let heads : a + x + b ≡ b + x + a = omega arith in ap₂ ◌∷◌ heads (shifts_meet a b xs)

-- For a group with a block bitmap, in a memory of bytes and with an inode size that is not 0: the
-- search changes nothing in memory, and returns for every set bit i of the bitmap, in order, the
-- number first_data_block + i. With more of them than the array has room for, the write goes past
-- its end. The bits stand for the group's blocks in use, which are counted from the first block of
-- the group: one by one, the number that is returned plus the first block of the group is the block
-- in use plus first_data_block.
pub get_free_blocks_in_group-used :
    (m : Memory) (self : Fs) (group : BlockGroup) (amount : ℕ) {bitmap : Bitarray}
    → group.block_bitmap ≡ some bitmap
    → (superblock_at m self.superblock).inode_size ≢ 0
    → IsBytes m
    → let given = blocks_given m self bitmap in
      (get_free_blocks_in_group m self (some group) amount
        ≡ (if ltb amount (length given) then fault else ok (m, given)))
      × (map (λ n. n + start_of m self group.number) given
          ≡ map
              (λ n. n + (superblock_at m self.superblock).first_data_block)
              (blocks_in_use m self group bitmap))
get_free_blocks_in_group-used m self group amount {bitmap} has sized bytes =
    let first = (superblock_at m self.superblock).first_data_block in
    let used = used_bits m bitmap (get_max_bit bitmap) 0 in
    (
      rw (length-map used (λ i. first + i))
          (get_free_blocks_in_group-set m self group amount has sized bytes),
      shifts_meet first (start_of m self group.number) used,
    )
