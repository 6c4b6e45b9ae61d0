-- ===== src/Collections/Linked.antt =====
-- The cells of fuse_ext2_commons/src/collections/list.c and node.h on a heap. A datum is a number,
-- 0 for NULL, and so is the address of a cell. The t_list itself is passed and returned.
pub mod Seg
pub mod Add
pub mod Query
pub mod Remove
pub mod Whole
pub mod Clean
pub mod Fresh
pub mod Copy
pub mod Take
pub mod Replace
pub mod Insert
use fuse_ext.Base.{
  ℕ, zero, suc, ◌+◌, ◌-◌, Bool, true, false, ◌==◌, ltb, if◌then◌else◌, Option, none, some, List, [],
  ◌∷◌, map, Ptr, Outcome, ok, fault, out_of_fuel, ◌>>=◌, deref, ◌<◌, ◌≡◌,
}
use fuse_ext.Base.Int.{ℤ, pos, negsuc}

-- t_link_element
pub record Node : Type 0 where
  pub data_of : ℕ
  pub next : Ptr

-- What was written to each cell, the last write first; `none` is a cell that was freed.
abbrev pub Heap : Type 0
Heap = List (Ptr × Option Node)

abbrev pub lookup : Heap → Ptr → Option Node
lookup [] p = none
lookup ((q, c) ∷ h) p = if p == q then c else lookup h p

-- `*p`: a read through NULL or of a cell that is not there is a fault.
abbrev pub node_at : Heap → Ptr → Outcome Node
node_at h p = if p == 0 then fault else deref (lookup h p)

-- malloc gives an address that is not NULL and not in use.
pub record Malloc : Type 0 where
  pub alloc : Heap → Ptr
  pub alloc-positive : (h : Heap) → 0 < alloc h
  pub alloc_unused : (h : Heap) → lookup h (alloc h) ≡ none

-- t_list
pub record LinkedList : Type 0 where
  pub head : Ptr
  pub elements_count : ℕ

abbrev pub list_create : LinkedList
list_create = record { head = 0; elements_count = 0 }

abbrev pub list_size : LinkedList → ℕ
list_size self = self.elements_count

abbrev pub list_is_empty : LinkedList → Bool
list_is_empty self = list_size self == 0

unfoldable pub link_element : Heap → Ptr → Ptr → Outcome Heap
link_element h previous next =
    if previous == 0
    then ok h
    else (do n ← node_at h previous; ok ((previous, some (record n { next = next })) ∷ h))

-- The `while` of `list_get_element`: so many steps from a cell.
unfoldable pub get_element_loop : Heap → ℕ → Ptr → Outcome Ptr
get_element_loop h zero element = ok element
get_element_loop h (suc left) element = do n ← node_at h element; get_element_loop h left n.next

unfoldable pub get_element : Heap → LinkedList → ℤ → Outcome Ptr
unfolding get_element_loop
get_element h self (pos index) =
    if ltb index self.elements_count then get_element_loop h index self.head else ok 0
get_element h self (negsuc n) = ok 0

abbrev pub data_at : Heap → Ptr → Outcome ℕ
data_at h element = if element == 0 then ok 0 else (do n ← node_at h element; ok n.data_of)

unfoldable pub list_get : Heap → LinkedList → ℤ → Outcome ℕ
unfolding get_element
list_get h self index = do element ← get_element h self index; data_at h element

-- The heap after, and the old datum.
unfoldable pub list_replace : Heap → LinkedList → ℤ → ℕ → Outcome (Heap × ℕ)
unfolding get_element
list_replace h self index x = do
  element ← get_element h self index
  if element == 0 then ok (h, 0) else (do
    n ← node_at h element
    ok ((element, some (record n { data_of = x })) ∷ h, n.data_of))

-- The cell where the condition holds, or NULL, and its position.
unfoldable pub find_loop : Heap → (ℕ → Bool) → ℕ → Ptr → ℕ → Outcome (Ptr × ℕ)
find_loop h condition zero element position = out_of_fuel
find_loop h condition (suc fuel) element position =
    if element == 0 then ok (element, position) else (do
      n ← node_at h element
      let rest = find_loop h condition fuel n.next (position + 1)
      if condition n.data_of then ok (element, position) else rest)

unfoldable pub find_element : Heap → LinkedList → (ℕ → Bool) → Outcome (Ptr × ℕ)
unfolding find_loop
find_element h self condition = find_loop h condition (self.elements_count + 1) self.head 0

unfoldable pub list_find : Heap → LinkedList → (ℕ → Bool) → Outcome ℕ
unfolding find_element
list_find h self condition = do r ← find_element h self condition; data_at h r.0

-- `index - 1`
abbrev pub before : ℤ → ℤ
before (pos zero) = negsuc 0
before (pos (suc n)) = pos n
before (negsuc n) = negsuc (suc n)

abbrev pub is_zero : ℤ → Bool
is_zero (pos n) = n == 0
is_zero (negsuc n) = false

-- The cell is taken out of the chain: the heap and the head after.
unfoldable pub unlink : Heap → LinkedList → ℤ → Ptr → Outcome (Heap × Ptr)
unfolding get_element link_element
unlink h self index next = if is_zero index then ok (h, next) else (do
  previous ← get_element h self (before index)
  h' ← link_element h previous next
  ok (h', self.head))

unfoldable pub list_remove : Heap → LinkedList → ℤ → Outcome (Heap × LinkedList × ℕ)
unfolding unlink
list_remove h self index = if self.head == 0 then ok (h, self, 0) else (do
  aux_element ← get_element h self index
  n ← node_at h aux_element
  r ← unlink h self index n.next
  ok (
    (aux_element, none) ∷ r.0,
    record { head = r.1; elements_count = self.elements_count - 1 },
    n.data_of,
  ))

unfoldable pub list_remove_by_condition :
    Heap → LinkedList → (ℕ → Bool) → Outcome (Heap × LinkedList × ℕ)
unfolding find_element list_remove
list_remove_by_condition h self condition = do
  r ← find_element h self condition
  if r.0 == 0 then ok (h, self, 0) else list_remove h self (pos r.1)

-- The `while` of `list_clean`; the heap after.
unfoldable pub clean_loop : Heap → ℕ → Ptr → Outcome Heap
clean_loop h zero head = out_of_fuel
clean_loop h (suc fuel) head =
    if head == 0 then ok h else (do n ← node_at h head; clean_loop ((head, none) ∷ h) fuel n.next)

unfoldable pub list_clean : Heap → LinkedList → Outcome (Heap × LinkedList)
unfolding clean_loop
list_clean h self = do
  h' ← clean_loop h (self.elements_count + 1) self.head
  ok (h', record { head = 0; elements_count = 0 })

module _ (malloc : Malloc) where
  abbrev pub create_element : Heap → ℕ → Heap × Ptr
  create_element h x =
      ((malloc.alloc h, some (record { data_of = x; next = 0 })) ∷ h, malloc.alloc h)

  -- The heap and the list after, and the index of the new element.
  unfoldable pub list_add : Heap → LinkedList → ℕ → Outcome (Heap × LinkedList × ℕ)
  unfolding get_element link_element
  list_add h self x =
      let (h1, new_element) = create_element h x in
      if self.elements_count == 0
      then ok (h1, record { head = new_element; elements_count = 1 }, 0)
      else (do
        last ← get_element h1 self (pos (self.elements_count - 1))
        h2 ← link_element h1 last new_element
        ok (h2, record self { elements_count = self.elements_count + 1 }, self.elements_count))
