-- ===== src/Collections/Linked/Insert.antt =====
-- `list_add_in_index` against the list of the data.
use fuse_ext.Base.{
  ℕ, zero, suc, ◌+◌, ◌<◌, ◌≡◌, ◌≢◌, refl, sym, ◌∙◌, ◌==◌, ne→==, ltb, lt→ltb, true, false, Option,
  some, List, [], ◌∷◌, length, Ptr, arith, ok,
}
use fuse_ext.Base.Int.{pos}
use fuse_ext.Collections.Linked.{
  Node, Heap, lookup, Malloc, LinkedList, get_element_loop, get_element, link_element,
}
use fuse_ext.Collections.Linked.Seg.{
  IsOutside, Seg, stop, cell, IsList, lookup_same, lookup_other, node_at_lem, Seg-IsOutside,
  IsOutside-unused,
}
use fuse_ext.Collections.Linked.Add.{alloc_ne}
use fuse_ext.Collections.Linked.Whole.{list_add_in_index}

abbrev pub insert_at {ℓ} : {A : Type ℓ} → ℕ → A → List A → List A
insert_at zero x xs = x ∷ xs
insert_at (suc i) x [] = []
insert_at (suc i) x (y ∷ ys) = y ∷ insert_at i x ys

length-insert_at :
    (i x : ℕ) (xs : List ℕ) → i < length xs → length (insert_at i x xs) ≡ length xs + 1
length-insert_at zero x xs h = omega arith
length-insert_at (suc i) x [] h = absurd (omega arith)
length-insert_at (suc i) x (y ∷ ys) h = omega (arith, length-insert_at i x ys (omega arith))

IsOutside-insert_at :
    (p q : Ptr) (i : ℕ) (ps : List Ptr) → p ≢ q → IsOutside p ps → IsOutside p (insert_at i q ps)
IsOutside-insert_at p q zero ps ne out = (ne, out)
IsOutside-insert_at p q (suc i) [] ne out = tt
IsOutside-insert_at p q (suc i) (r ∷ ps) ne out = (out.0, IsOutside-insert_at p q i ps ne out.1)

-- The cell k, the address of the one behind it, and the chain when a new cell is put between.
record IsInserted (h : Heap) (p q : Ptr) (k x : ℕ) (ps : List Ptr) (xs : List ℕ) (prev : Ptr)
    (m : Node) : Type 0 where
  walk : get_element_loop h k p ≡ ok prev
  walk_next : get_element_loop h (suc k) p ≡ ok m.next
  positive : prev ≢ 0
  found : lookup h prev ≡ some m
  inside : (r : Ptr) → IsOutside r ps → r ≢ prev
  chain :
      Seg
        ((q, some (record { data_of = x; next = m.next }))
          ∷ (prev, some (record m { next = q }))
          ∷ h)
        p
        (insert_at (suc k) q ps)
        (insert_at (suc k) x xs)

module _ {h : Heap} (q : Ptr) (x : ℕ) (q-positive : q ≢ 0) where
  Seg-IsInserted :
      {p : Ptr} {ps : List Ptr} {xs : List ℕ} (k : ℕ)
      → Seg h p ps xs
      → suc k < length xs
      → IsOutside q ps
      → (prev : Ptr) × (m : Node) × IsInserted h p q k x ps xs prev m
  unfolding get_element_loop
  Seg-IsInserted k (stop e) inside out = absurd (omega arith)
  Seg-IsInserted {p} zero (cell n positive found distinct rest) inside out =
      let w : Option Node = some (record n { next = q }) in
      let c : Option Node = some (record { data_of = x; next = n.next }) in
      let ne : p ≢ q = λ e. out.0 (sym e) in
      (
        p,
        n,
        record {
          walk = refl;
          walk_next = rw (node_at_lem h p n positive found) refl;
          positive = positive;
          found = found;
          inside = λ r o. o.0;
          chain =
              cell (record n { next = q }) positive
                (lookup_other ((p, w) ∷ h) p q c ne ∙ lookup_same h p w) (ne, distinct)
                (cell (record { data_of = x; next = n.next }) q-positive
                  (lookup_same ((p, w) ∷ h) q c) out.1
                  (Seg-IsOutside q c out.1 (Seg-IsOutside p w distinct rest)));
        },
      )
  Seg-IsInserted {p} (suc k) (cell {ps} n positive found distinct rest) inside out =
      let (prev, m, tail) = Seg-IsInserted k rest (omega arith) out.1 in
      let w : Option Node = some (record m { next = q }) in
      let c : Option Node = some (record { data_of = x; next = m.next }) in
      let ne : p ≢ q = λ e. out.0 (sym e) in
      (
        prev,
        m,
        record {
          walk = rw (node_at_lem h p n positive found) tail.walk;
          walk_next = rw (node_at_lem h p n positive found) tail.walk_next;
          positive = tail.positive;
          found = tail.found;
          inside = λ r o. tail.inside r o.1;
          chain =
              cell n positive
                (lookup_other ((prev, w) ∷ h) p q c ne
                  ∙ lookup_other h p prev w (tail.inside p distinct)
                  ∙ found)
                (IsOutside-insert_at p q (suc k) ps ne distinct) tail.chain;
        },
      )

module _ (malloc : Malloc) (h : Heap) (self : LinkedList) (x : ℕ) where
  abbrev new_cell : Option Node
  new_cell = some (record { data_of = x; next = 0 })

  insert_first :
      {ps : List Ptr} {xs : List ℕ}
      → IsList h self ps xs
      → 0 < length xs
      → (after : Heap) × (self' : LinkedList) × (list_add_in_index malloc h self (pos 0) x
          ≡ ok (after, self'))
        × IsList after self' (malloc.alloc h ∷ ps) (x ∷ xs)
  unfolding list_add_in_index link_element
  insert_first {ps} {xs} list inside =
      let q = malloc.alloc h in
      let n : Node = record { data_of = x; next = self.head } in
      let out = IsOutside-unused q (malloc.alloc_unused h) list.chain in
      let in_range : ltb 0 (length xs) ≡ true = lt→ltb _ _ inside in
      (
        (q, some n) ∷ (q, new_cell) ∷ h,
        record { head = q; elements_count = length xs + 1 },
        rw (list.count, in_range)
            (rw (ne→== q 0 (alloc_ne malloc h), lookup_same h q new_cell) refl),
        record {
          chain =
              cell n (alloc_ne malloc h) (lookup_same ((q, new_cell) ∷ h) q (some n)) out
                (Seg-IsOutside q (some n) out (Seg-IsOutside q new_cell out list.chain));
          count = omega arith;
        },
      )

  insert_behind :
      {ps : List Ptr} {xs : List ℕ} (k : ℕ)
      → IsList h self ps xs
      → suc k < length xs
      → (after : Heap) × (self' : LinkedList) × (list_add_in_index malloc h self (pos (suc k)) x
          ≡ ok (after, self'))
        × IsList after self' (insert_at (suc k) (malloc.alloc h) ps) (insert_at (suc k) x xs)
  unfolding list_add_in_index get_element link_element
  insert_behind {ps} {xs} k list inside =
      let q = malloc.alloc h in
      let out = IsOutside-unused q (malloc.alloc_unused h) list.chain in
      let (prev, m, done) =
        Seg-IsInserted {h = (q, new_cell) ∷ h} q x (alloc_ne malloc h) k
          (Seg-IsOutside q new_cell out list.chain) inside out in
      let w : Option Node = some (record m { next = q }) in
      let new : lookup ((prev, w) ∷ (q, new_cell) ∷ h) q ≡ new_cell =
        lookup_other ((q, new_cell) ∷ h) q prev w (done.inside q out) ∙ lookup_same h q new_cell in
      let in_range : ltb (suc k) (length xs) ≡ true = lt→ltb _ _ inside in
      let before_in_range : ltb k (length xs) ≡ true = lt→ltb _ _ (omega arith) in
      let behind_first : (suc k == 0) ≡ false = ground arith in
      (
        (q, some (record { data_of = x; next = m.next })) ∷ (prev, w) ∷ (q, new_cell) ∷ h,
        record self { elements_count = length xs + 1 },
        rw (list.count, in_range, before_in_range, behind_first)
            (rw (done.walk_next, done.walk)
              (rw (ne→== prev 0 done.positive, done.found)
                (rw (ne→== q 0 (alloc_ne malloc h), new) refl))),
        record { chain = done.chain; count = sym (length-insert_at (suc k) x xs inside) },
      )

-- `list_add_in_index` on a well-formed list, at an index in range, returns; the list after is well
-- formed, with the new element in a new cell at the index and the others around it in their order.
pub list_add_in_index-IsList :
    (malloc : Malloc) (h : Heap) (self : LinkedList) (ps : List Ptr) (xs : List ℕ) (i x : ℕ)
    → IsList h self ps xs
    → i < length xs
    → (after : Heap) × (self' : LinkedList) × (list_add_in_index malloc h self (pos i) x
        ≡ ok (after, self'))
      × IsList after self' (insert_at i (malloc.alloc h) ps) (insert_at i x xs)
list_add_in_index-IsList malloc h self ps xs zero x list inside =
    insert_first malloc h self x list inside
list_add_in_index-IsList malloc h self ps xs (suc k) x list inside =
    insert_behind malloc h self x k list inside
