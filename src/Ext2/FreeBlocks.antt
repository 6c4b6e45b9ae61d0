-- ===== src/Ext2/FreeBlocks.antt =====
-- The search for free blocks: `ext2_get_free_blocks` and what it calls.
pub mod Laws
pub mod Search
use fuse_ext.Base.{
  ℕ, zero, suc, ◌+◌, ◌-◌, ◌*◌, ◌/◌, Bool, true, false, ◌==◌, ltb, leb, if◌then◌else◌, Option, none,
  some, List, [], ◌∷◌, ◌++◌, length, u16, Ptr, Memory, Outcome, ok, fault, out_of_fuel, ◌>>=◌,
  deref,
}
use fuse_ext.Bitarray.{Bitarray, get_max_bit, test_bit, set_bit}
use fuse_ext.Ext2.Layout.{superblock_at}
use fuse_ext.Ext2.Geometry.{Fs, has_superblock}
use fuse_ext.Ext2.Groups.{BlockGroup, get_block_group}

-- The loop of `ext2_get_block_group_offset` changes its own index, and not the result.
unfoldable pub group_offset_loop : Memory → Fs → ℕ → ℕ → ℕ → Outcome ℕ
group_offset_loop m self block_group zero index = out_of_fuel
group_offset_loop m self block_group (suc fuel) index =
    let s = superblock_at m self.superblock in
    let header : ℕ = if has_superblock block_group then 2 else 0 in
    let rest =
      group_offset_loop m self block_group fuel
        (index + header + 2 + self.block_size / s.inode_size + s.blockper_group + 1) in
    if ltb index block_group
    then (if s.inode_size == 0 then fault else rest)
    else ok s.first_data_block

unfoldable pub get_block_group_offset : Memory → Fs → ℕ → Outcome ℕ
unfolding group_offset_loop
get_block_group_offset m self block_group =
    group_offset_loop m self (u16 block_group) (u16 block_group + 1) 0

-- The `for` over the bits, `left` rounds from `index` on. `filled` is what stands in the array so
-- far; a write behind its `amount` elements is a fault.
unfoldable pub free_bits_loop :
    Fs → Bitarray → ℕ → ℕ → ℕ → ℕ → Memory → List ℕ → Outcome (Memory × List ℕ)
free_bits_loop self bitmap amount offset zero index m filled = ok (m, filled)
free_bits_loop self bitmap amount offset (suc left) index m filled =
    let used =
      free_bits_loop self bitmap amount offset left (index + 1) (set_bit m bitmap index)
        (filled ++ (offset + index) ∷ []) in
    let unused = free_bits_loop self bitmap amount offset left (index + 1) m filled in
    if test_bit m bitmap index then (if ltb (length filled) amount then used else fault) else unused

-- The memory after, and the elements written to `array_to_fill`, which has room for `amount`.
unfoldable pub get_free_blocks_in_group :
    Memory → Fs → Option BlockGroup → ℕ → Outcome (Memory × List ℕ)
unfolding get_block_group_offset free_bits_loop
get_free_blocks_in_group m self block_group amount = do
  group ← deref block_group
  offset ← get_block_group_offset m self (group.number + 1)
  bitmap ← deref group.block_bitmap
  free_bits_loop self bitmap amount offset (get_max_bit bitmap) 0 m []

-- The group `distance` to the left and to the right; past the ends they wrap round the number of
-- blocks.
abbrev pub left_group : Memory → Fs → ℕ → ℕ → ℕ
left_group m self number distance =
    if ltb number distance
    then (superblock_at m self.superblock).blockcount + (distance - number)
    else number - distance

abbrev pub right_group : Memory → Fs → ℕ → ℕ → ℕ
right_group m self number distance =
    let blocks = (superblock_at m self.superblock).blockcount in
    if leb blocks (number + distance) then number + distance - blocks else number + distance

-- One more group is searched, behind what was found before.
unfoldable pub search_group : Memory → Fs → ℕ → ℕ → List ℕ → Outcome (Memory × List ℕ)
unfolding get_free_blocks_in_group
search_group m self number amount found = do
  group ← get_block_group m self number
  r ← get_free_blocks_in_group m self group (amount - length found)
  ok (r.0, found ++ r.1)

-- The `for` over the distances, `left` rounds from `distance` on; `none` is NULL.
unfoldable pub distances_loop :
    Fs → ℕ → ℕ → ℕ → ℕ → Memory → List ℕ → Outcome (Memory × Option (List ℕ))
distances_loop self number amount zero distance m found = ok (m, none)
distances_loop self number amount (suc left) distance m found = do
  l ← search_group m self (left_group m self number distance) amount found
  elim (length l.1 == amount) [
    | true ↦ ok (l.0, some l.1)
    | false ↦ search_group l.0 self (right_group m self number distance) amount l.1 >>= λ r.
        elim (length r.1 == amount) [
          | true ↦ ok (r.0, some r.1)
          | false ↦ distances_loop self number amount left (distance + 1) r.0 r.1
        ]
  ]

unfoldable pub get_free_blocks :
    Memory → Fs → Option BlockGroup → ℕ → Outcome (Memory × Option (List ℕ))
unfolding search_group distances_loop
get_free_blocks m self block_group_delta amount = do
  r ← get_free_blocks_in_group m self block_group_delta amount
  if length r.1 == amount then ok (r.0, some r.1) else (do
    group ← deref block_group_delta
    distances_loop self group.number amount (self.number_of_block_groups / 2 - 1) 1 r.0 r.1)

-- It searches the blocks and adds none of them: its loop has no body.
unfoldable pub add_inode_free_blocks : Memory → Fs → Ptr → ℕ → Outcome (Memory × Bool)
unfolding get_free_blocks
add_inode_free_blocks m self node amount = do
  group ← get_block_group m self 0
  r ← get_free_blocks m self group amount
  ok (r.0, true)

unfoldable pub remove_inode_blocks : Memory → Fs → Ptr → ℕ → Memory × Bool
remove_inode_blocks m self node amount = (m, true)
