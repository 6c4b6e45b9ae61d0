-- ===== src/Collections/Linked/Whole.antt =====
-- The functions of list.c that insert in the middle and those that walk over a whole list. A
-- closure acts on the heap and on a state of its own.
use fuse_ext.Base.{
  ℕ, zero, suc, ◌+◌, Bool, ◌==◌, ltb, if◌then◌else◌, Ptr, Outcome, ok, out_of_fuel, ◌>>=◌,
}
use fuse_ext.Base.Int.{ℤ, pos, negsuc}
use fuse_ext.Collections.Linked.{
  Heap, node_at, Malloc, LinkedList, list_create, link_element, get_element, before, list_get,
  list_replace, list_remove, list_remove_by_condition, list_clean, create_element, list_add,
}

-- The `while` of `list_iterate`: the next cell is read when the closure is done.
unfoldable pub iterate_loop {ℓ} :
    {S : Type ℓ} → (Heap → S → ℕ → Outcome (Heap × S)) → ℕ → Heap → Ptr → S → Outcome (Heap × S)
iterate_loop closure zero h element s = out_of_fuel
iterate_loop closure (suc fuel) h element s = if element == 0 then ok (h, s) else (do
  n ← node_at h element
  r ← closure h s n.data_of
  n' ← node_at r.0 element
  iterate_loop closure fuel r.0 n'.next r.1)

unfoldable pub list_iterate {ℓ} :
    {S : Type ℓ} → Heap → LinkedList → (Heap → S → ℕ → Outcome (Heap × S)) → S → Outcome (Heap × S)
unfolding iterate_loop
list_iterate h self closure s = iterate_loop closure (self.elements_count + 1) h self.head s

-- The variants that call a destroyer: it acts on the heap and on a state of its own, as a closure
-- does. The list after comes with them.
module _ {ℓ} {S : Type ℓ} (h : Heap) (self : LinkedList)
    (element_destroyer : Heap → S → ℕ → Outcome (Heap × S)) (s : S) where
  unfoldable pub list_replace_and_destroy_element : ℤ → ℕ → Outcome (Heap × S)
  list_replace_and_destroy_element num x = do
    r ← list_replace h self num x
    element_destroyer r.0 s r.1

  unfoldable pub list_remove_and_destroy_element : ℤ → Outcome (Heap × LinkedList × S)
  list_remove_and_destroy_element index = do
    r ← list_remove h self index
    d ← element_destroyer r.0 s r.2
    ok (d.0, r.1, d.1)

  unfoldable pub list_remove_and_destroy_by_condition : (ℕ → Bool) → Outcome (Heap × LinkedList × S)
  list_remove_and_destroy_by_condition condition = do
    r ← list_remove_by_condition h self condition
    d ← element_destroyer r.0 s r.2
    ok (d.0, r.1, d.1)

  unfoldable pub list_clean_and_destroy_elements : Outcome (Heap × LinkedList × S)
  unfolding list_iterate
  list_clean_and_destroy_elements = do
    r ← list_iterate h self element_destroyer s
    c ← list_clean r.0 self
    ok (c.0, c.1, r.1)

module _ (malloc : Malloc) where
  -- The result is not used by `list_filter` and the others: only the heap and the list.
  abbrev pub added : Heap → LinkedList → ℕ → Outcome (Heap × LinkedList)
  added h self x = do r ← list_add malloc h self x; ok (r.0, r.1)

  unfoldable pub list_add_in_index : Heap → LinkedList → ℤ → ℕ → Outcome (Heap × LinkedList)
  list_add_in_index h self (negsuc n) x = ok (h, self)
  list_add_in_index h self (pos index) x =
      let new_element = (create_element malloc h x).1 in
      let h1 = (create_element malloc h x).0 in
      if ltb index self.elements_count
      then (if index == 0
          then (do
            h2 ← link_element h1 new_element self.head
            ok (h2, record { head = new_element; elements_count = self.elements_count + 1 }))
          else (do
            next ← get_element h1 self (pos index)
            previous ← get_element h1 self (before (pos index))
            h2 ← link_element h1 previous new_element
            h3 ← link_element h2 new_element next
            ok (h3, record self { elements_count = self.elements_count + 1 })))
      else ok (h, self)

  -- The `for` of `list_take`, `left` rounds from i on.
  unfoldable pub take_loop : LinkedList → ℕ → ℕ → Heap → LinkedList → Outcome (Heap × LinkedList)
  take_loop self zero i h sublist = ok (h, sublist)
  take_loop self (suc left) i h sublist = do
    element ← list_get h self (pos i)
    r ← added h sublist element
    take_loop self left (i + 1) r.0 r.1

  unfoldable pub list_take : Heap → LinkedList → ℕ → Outcome (Heap × LinkedList)
  unfolding take_loop
  list_take h self count = take_loop self count 0 h list_create

  -- The heap, the list that elements were taken from, and the new list.
  unfoldable pub take_and_remove_loop :
      ℕ → Heap → LinkedList → LinkedList → Outcome (Heap × LinkedList × LinkedList)
  take_and_remove_loop zero h self sublist = ok (h, self, sublist)
  take_and_remove_loop (suc left) h self sublist = do
    removed ← list_remove h self (pos 0)
    r ← added removed.0 sublist removed.2
    take_and_remove_loop left r.0 removed.1 r.1

  unfoldable pub list_take_and_remove :
      Heap → LinkedList → ℕ → Outcome (Heap × LinkedList × LinkedList)
  unfolding take_and_remove_loop
  list_take_and_remove h self count = take_and_remove_loop count h self list_create

  unfoldable pub list_filter : Heap → LinkedList → (ℕ → Bool) → Outcome (Heap × LinkedList)
  unfolding list_iterate
  list_filter h self condition =
      list_iterate h self
        (λ h' filtered x. if condition x then added h' filtered x else ok (h', filtered))
        list_create

  unfoldable pub list_map : Heap → LinkedList → (ℕ → ℕ) → Outcome (Heap × LinkedList)
  unfolding list_iterate
  list_map h self transformer =
      list_iterate h self (λ h' mapped x. added h' mapped (transformer x)) list_create
