-- ===== src/Tests/Cells.antt =====
-- The theorems on linked lists at a list of two elements.
use fuse_ext.Base.{
  ◌==◌, List, zero, suc, if◌then◌else◌, Outcome, out_of_fuel, ◌>>=◌, ℕ, ◌+◌, ◌<◌, max, ◌≡◌, ◌≢◌,
  ne→==, refl, none, some, [], ◌∷◌, ◌++◌, Ptr, ok, ltb, arith,
}
use fuse_ext.Base.Int.{pos}
use fuse_ext.Collections.Linked.{
  node_at, get_element, link_element, Node, Heap, lookup, Malloc, LinkedList, list_get, list_add,
  list_remove, list_replace, list_create,
}
use fuse_ext.Collections.Linked.Seg.{stop, cell, IsList, IsOutside}
use fuse_ext.Collections.Linked.Replace.{replaced, list_replace-IsList}
use fuse_ext.Collections.Linked.Fresh.{IsCopied}
use fuse_ext.Collections.Linked.Take.{padded, list_take-IsCopied}
use fuse_ext.Collections.Linked.Clean.{AreUnused, called, list_clean_and_destroy_elements-IsList}
use fuse_ext.Collections.Linked.Insert.{insert_at, list_add_in_index-IsList}
use fuse_ext.Collections.Linked.Copy.{filter, list_filter-IsCopied}
use fuse_ext.Collections.Linked.Add.{list_add-IsList}
use fuse_ext.Collections.Linked.Query.{element_at}
use fuse_ext.Collections.Linked.Whole.{
  list_add_in_index, list_take, list_take_and_remove, list_filter, list_map,
  list_clean_and_destroy_elements,
}
use fuse_ext.Collections.Linked.Remove.{list_remove-IsList}

-- An allocator: one behind the highest address that was written.
abbrev highest : Heap → Ptr
highest [] = 0
highest ((q, c) ∷ h) = max q (highest h)

lookup-highest : (h : Heap) (p : Ptr) → highest h < p → lookup h p ≡ none
lookup-highest [] p above = refl
lookup-highest ((q, c) ∷ h) p above =
    rw (ne→== p q (λ e. omega arith)) (lookup-highest h p (omega arith))

abbrev bump : Malloc
bump = record {
  alloc = λ h. highest h + 1;
  alloc-positive = λ h. omega arith;
  alloc_unused = λ h. lookup-highest h (highest h + 1) (omega arith);
}

abbrev first : Node
first = record { data_of = 30; next = 2 }

abbrev second : Node
second = record { data_of = 40; next = 0 }

abbrev heap : Heap
heap = (1, some first) ∷ (2, some second) ∷ []

abbrev two : LinkedList
two = record { head = 1; elements_count = 2 }

two-IsList : IsList heap two (1 ∷ 2 ∷ []) (30 ∷ 40 ∷ [])
two-IsList = record {
  chain =
      cell first (λ e. omega arith) refl ((λ e. omega arith), tt)
        (cell second (λ e. omega arith) refl tt (stop refl));
  count = refl;
}

list_add_example :
    (after : Heap) × (self : LinkedList) × (list_add bump heap two 50 ≡ ok (after, self, 2))
    × IsList after self ((1 ∷ 2 ∷ []) ++ 3 ∷ []) ((30 ∷ 40 ∷ []) ++ 50 ∷ [])
    × ((r : Ptr) → IsOutside r (1 ∷ 2 ∷ []) → r ≢ 3 → lookup after r ≡ lookup heap r)
list_add_example = list_add-IsList bump heap two (1 ∷ 2 ∷ []) (30 ∷ 40 ∷ []) 50 two-IsList

list_remove_example :
    (after : Heap) × (self : LinkedList) × (list_remove heap two (pos 1) ≡ ok (after, self, 40))
    × IsList after self (1 ∷ []) (30 ∷ [])
list_remove_example =
    list_remove-IsList heap two (1 ∷ 2 ∷ []) (30 ∷ 40 ∷ []) 1 two-IsList (omega arith)

replace_example :
    (after : Heap) × (list_replace heap two (pos 1) 7
      ≡ ok (after, element_at (30 ∷ 40 ∷ []) (pos 1)))
    × IsList after two (1 ∷ 2 ∷ []) (replaced (30 ∷ 40 ∷ []) (pos 1) 7)
replace_example = list_replace-IsList heap two (1 ∷ 2 ∷ []) (30 ∷ 40 ∷ []) (pos 1) 7 two-IsList

take_example :
    (after : Heap) × (copy : LinkedList) × (qs : List Ptr) × (list_take bump heap two 3
      ≡ ok (after, copy))
    × IsCopied heap after copy qs (padded 3 (30 ∷ 40 ∷ []))
    × IsList after two (1 ∷ 2 ∷ []) (30 ∷ 40 ∷ [])
take_example = list_take-IsCopied bump heap two (1 ∷ 2 ∷ []) (30 ∷ 40 ∷ []) 3 two-IsList

add_in_index_example :
    (after : Heap) × (self : LinkedList) × (list_add_in_index bump heap two (pos 1) 7
      ≡ ok (after, self))
    × IsList after self (insert_at 1 (bump.alloc heap) (1 ∷ 2 ∷ [])) (insert_at 1 7 (30 ∷ 40 ∷ []))
add_in_index_example =
    list_add_in_index-IsList bump heap two (1 ∷ 2 ∷ []) (30 ∷ 40 ∷ []) 1 7 two-IsList (omega arith)

filter_example :
    (after : Heap) × (copy : LinkedList) × (qs : List Ptr) × (list_filter bump heap two (ltb 35)
      ≡ ok (after, copy))
    × IsCopied heap after copy qs (filter (ltb 35) (30 ∷ 40 ∷ []))
    × IsList after two (1 ∷ 2 ∷ []) (30 ∷ 40 ∷ [])
filter_example = list_filter-IsCopied bump heap two (1 ∷ 2 ∷ []) (30 ∷ 40 ∷ []) (ltb 35) two-IsList

abbrev note : List ℕ → ℕ → List ℕ
note s x = s ++ x ∷ []

clean_example :
    (after : Heap) × (list_clean_and_destroy_elements heap two (λ h s x. ok (h, note s x)) []
      ≡ ok (after, list_create, called note [] (30 ∷ 40 ∷ [])))
    × AreUnused after (1 ∷ 2 ∷ [])
    × ((r : Ptr) → IsOutside r (1 ∷ 2 ∷ []) → lookup after r ≡ lookup heap r)
clean_example =
    list_clean_and_destroy_elements-IsList note two (1 ∷ 2 ∷ []) (30 ∷ 40 ∷ []) [] two-IsList

-- What the functions over a whole list give at this list, read back as the sequence of its data.
abbrev data_from : ℕ → Heap → Ptr → Outcome (List ℕ)
data_from zero h p = out_of_fuel
data_from (suc fuel) h p =
    if p == 0
    then ok []
    else (do n ← node_at h p; xs ← data_from fuel h n.next; ok (n.data_of ∷ xs))

abbrev sequence : Outcome (Heap × LinkedList) → Outcome (List ℕ)
sequence r = r >>= λ (h, self). data_from 9 h self.head

insert_run : sequence (list_add_in_index bump heap two (pos 1) 7) ≡ ok (30 ∷ 7 ∷ 40 ∷ [])
unfolding list_add_in_index get_element link_element
insert_run = refl

take_run : sequence (list_take bump heap two 3) ≡ ok (30 ∷ 40 ∷ 0 ∷ [])
unfolding list_take list_get list_add
take_run = refl

filter_run : sequence (list_filter bump heap two (ltb 35)) ≡ ok (40 ∷ [])
unfolding list_filter list_add
filter_run = refl

map_run : sequence (list_map bump heap two (λ x. x + 1)) ≡ ok (31 ∷ 41 ∷ [])
unfolding list_map list_add
map_run = refl

-- Taken out one by one, and NULL once the list is empty.
take_and_remove_run :
    (list_take_and_remove bump heap two 3 >>= λ r. data_from 9 r.0 r.2.head) ≡ ok (30 ∷ 40 ∷ 0 ∷ [])
unfolding list_take_and_remove list_remove list_add
take_and_remove_run = refl
