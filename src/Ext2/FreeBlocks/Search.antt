-- ===== src/Ext2/FreeBlocks/Search.antt =====
-- The search for free blocks over several groups.
use fuse_ext.Base.{
  ℕ, zero, suc, ◌+◌, ◌-◌, ◌/◌, ◌<◌, ◌≡◌, ◌≢◌, refl, sym, subst, ap, ◌∙◌, ◌⊎◌, inl, inr, Bool, true,
  false, ◌==◌, ==_iff, if◌then◌else◌, Option, none, some, List, [], ◌∷◌, ◌++◌, length, u16, arith,
  Memory, IsBytes, Outcome, ok, ok-injective, ◌>>=◌, >>=-eq-ok, deref,
}
use fuse_ext.Bitarray.{Bitarray, get_max_bit, test_bit}
use fuse_ext.Ext2.Layout.{superblock_at}
use fuse_ext.Ext2.Geometry.{Fs}
use fuse_ext.Ext2.Groups.{BlockGroup, get_block_group}
use fuse_ext.Ext2.Groups.Laws.{start_of}
use fuse_ext.Ext2.FreeBlocks.{
  get_block_group_offset, get_free_blocks_in_group, left_group, right_group, search_group,
  distances_loop, get_free_blocks,
}
use fuse_ext.Ext2.FreeBlocks.Laws.{All, get_free_blocks_in_group-not_free}

-- A block in use: a bit of the block bitmap of its group is set, and stands for this block, counted
-- from the first block of the group.
abbrev pub IsInUse : Memory → Fs → ℕ → ℕ → Type 0
IsInUse m self number block =
    (group : BlockGroup) × (bitmap : Bitarray) × (i : ℕ) × (get_block_group m self number
      ≡ ok (some group))
    × (group.block_bitmap ≡ some bitmap)
    × (block ≡ start_of m self (u16 number) + i)
    × (test_bit m bitmap i ≡ true)
    × (i < get_max_bit bitmap)

-- A number that is given for a block in use of some group: as far from the first data block as the
-- block is from the first block of its group.
abbrev pub IsGiven : Memory → Fs → ℕ → Type 0
IsGiven m self given =
    (number : ℕ) × (block : ℕ) × IsInUse m self number block
    × (given + start_of m self (u16 number)
        ≡ (superblock_at m self.superblock).first_data_block + block)

-- What a search gives: NULL, or as many numbers as were asked for, each for a block in use.
abbrev pub IsFull : Memory → Fs → ℕ → Option (List ℕ) → Type 0
IsFull m self amount none = Unit
IsFull m self amount (some blocks) = (length blocks ≡ amount) × All (IsGiven m self) blocks

deref-some : {A : Type 0} {x : A} (o : Option A) → deref o ≡ ok x → o ≡ some x
deref-some none run = cc
deref-some (some y) run = ap some (ok-injective run)

All-append : {A : Type 0} (P : A → Type 0) (xs ys : List A) → All P xs → All P ys → All P (xs ++ ys)
All-append P [] ys h k = k
All-append P (x ∷ xs) ys h k = (h.0, All-append P xs ys h.1 k)

All-step :
    {A : Type 0} (P Q : A → Type 0) (xs : List A) → ((x : A) → P x → Q x) → All P xs → All Q xs
All-step P Q [] step h = tt
All-step P Q (x ∷ xs) step h = (step x h.0, All-step P Q xs step h.1)

-- Which branch of a test gave the result.
branch :
    {A : Type 0} (b : Bool) {x y z : A}
    → (elim b [ true ↦ x | false ↦ y ]) ≡ z
    → ((b ≡ true) × (x ≡ z)) ⊎ ((b ≡ false) × (y ≡ z))
branch true e = inl (refl, e)
branch false e = inr (refl, e)

if_as_elim :
    {A : Type 0} (b : Bool) (x y : A) → (if b then x else y) ≡ (elim b [ true ↦ x | false ↦ y ])
if_as_elim true x y = refl
if_as_elim false x y = refl

module _ (m : Memory) (self : Fs) (sized : (superblock_at m self.superblock).inode_size ≢ 0)
    (bytes : IsBytes m) where
  in_group :
      (number amount : ℕ) (group : Option BlockGroup) {after : Memory} {found : List ℕ}
      → get_block_group m self number ≡ ok group
      → get_free_blocks_in_group m self group amount ≡ ok (after, found)
      → (after ≡ m) × All (IsGiven m self) found
  unfolding get_free_blocks_in_group
  in_group number amount none at run = cc
  in_group number amount (some group) {after} {found} at run =
      let (offset, begin, next) =
        >>=-eq-ok (get_block_group_offset m self (group.number + 1)) _ run in
      let (bitmap, has, loop) = >>=-eq-ok (deref group.block_bitmap) _ next in
      let has' = deref-some group.block_bitmap has in
      let (same, all) =
        get_free_blocks_in_group-not_free m after self group amount found has' sized bytes run in
      (
        same,
        All-step _ _ found
            (λ x h.
              let start = start_of m self (u16 number) in
              (
                number,
                start + h.0,
                (group, bitmap, h.0, at, has', refl, h.2, h.3),
                omega (arith, h.1),
              ))
            all,
      )

  search_group_lem :
      (number amount : ℕ) (found : List ℕ) {after : Memory} {more : List ℕ}
      → All (IsGiven m self) found
      → search_group m self number amount found ≡ ok (after, more)
      → (after ≡ m) × All (IsGiven m self) more
  unfolding search_group
  search_group_lem number amount found used run =
      let (group, at, next) = >>=-eq-ok (get_block_group m self number) _ run in
      let (r, bits, both) =
        >>=-eq-ok (get_free_blocks_in_group m self group (amount - length found)) _ next in
      let (same, all) = in_group number (amount - length found) group at bits in
      (
        ap (λ s. s.0) (sym (ok-injective both)) ∙ same,
        subst (λ s. All (IsGiven m self) s.1) (ok-injective both)
            (All-append (IsGiven m self) found r.1 used all),
      )

  -- With enough blocks the search ends; otherwise it goes on.
  enough_or :
      (amount : ℕ) (s : Memory × List ℕ) (others : Outcome (Memory × Option (List ℕ)))
      {after : Memory} {r : Option (List ℕ)}
      → (s.0 ≡ m) × All (IsGiven m self) s.1
      → (others ≡ ok (after, r) → (after ≡ m) × IsFull m self amount r)
      → (elim (length s.1 == amount) [ true ↦ ok (s.0, some s.1) | false ↦ others ]) ≡ ok (after, r)
      → (after ≡ m) × IsFull m self amount r
  enough_or amount s others used go_on run = elim (branch (length s.1 == amount) run) [
    | inl (full, done) ↦ (
      ap (λ t. t.0) (sym (ok-injective done)) ∙ used.0,
      subst (λ t. IsFull m self amount t.1) (ok-injective done)
          ((==_iff (length s.1) amount).0 full, used.1),
    )
    | inr (short, rest) ↦ go_on rest
  ]

  distances_loop_lem :
      (number amount left distance : ℕ) (found : List ℕ) {after : Memory} {r : Option (List ℕ)}
      → All (IsGiven m self) found
      → distances_loop self number amount left distance m found ≡ ok (after, r)
      → (after ≡ m) × IsFull m self amount r
  unfolding distances_loop
  distances_loop_lem number amount zero distance found used run = (
    ap (λ t. t.0) (sym (ok-injective run)),
    subst (λ t. IsFull m self amount t.1) (ok-injective run) tt,
  )
  distances_loop_lem number amount (suc left) distance found {after} {r} used run =
      let (l, run_left, next) =
        >>=-eq-ok (search_group m self (left_group m self number distance) amount found) _ run in
      let from_left =
        search_group_lem (left_group m self number distance) amount found used run_left in
      enough_or amount l
        (search_group l.0 self (right_group m self number distance) amount l.1 >>= λ t.
          elim (length t.1 == amount) [
            | true ↦ ok (t.0, some t.1)
            | false ↦ distances_loop self number amount left (distance + 1) t.0 t.1
          ])
        from_left
        (λ others.
          let (s, run_right, next') =
            >>=-eq-ok (search_group l.0 self (right_group m self number distance) amount l.1) _
              others in
          let run_right' =
            subst (λ t. search_group t self (right_group m self number distance) amount l.1 ≡ ok s)
              from_left.0 run_right in
          let from_right =
            search_group_lem (right_group m self number distance) amount l.1 from_left.1
              run_right' in
          enough_or amount s (distances_loop self number amount left (distance + 1) s.0 s.1)
            from_right
            (λ rest. distances_loop_lem number amount left (distance + 1) s.1 from_right.1 (
              subst
                (λ t. distances_loop self number amount left (distance + 1) t s.1 ≡ ok (after, r))
                from_right.0 rest))
            next')
        next

  -- A search over the groups that returns, from a group of the device on, in a memory of bytes with
  -- an inode size that is not 0: it has changed nothing in memory, and it gives either NULL or
  -- exactly as many numbers as were asked for. Each is given for a block that the block bitmap of
  -- some group marks as in use, and is that block's number with the first block of the group
  -- replaced by the first data block of the device: it is as far from the one as the block is from
  -- the other.
  pub get_free_blocks-IsFull :
      (number amount : ℕ) (delta : Option BlockGroup) {after : Memory} {r : Option (List ℕ)}
      → get_block_group m self number ≡ ok delta
      → get_free_blocks m self delta amount ≡ ok (after, r)
      → (after ≡ m) × IsFull m self amount r
  unfolding get_free_blocks
  get_free_blocks-IsFull number amount delta {after} {r} at run =
      let (s, first, next) = >>=-eq-ok (get_free_blocks_in_group m self delta amount) _ run in
      let used = in_group number amount delta at first in
      enough_or amount s _ used
        (λ others.
          let (group, has, rest) = >>=-eq-ok (deref delta) _ others in
          distances_loop_lem group.number amount (self.number_of_block_groups / 2 - 1) 1 s.1 used.1
            (subst
              (λ t.
                distances_loop self group.number amount (self.number_of_block_groups / 2 - 1) 1 t
                  s.1
                ≡ ok (after, r))
              used.0 rest))
        (sym (if_as_elim (length s.1 == amount) _ _) ∙ next)
