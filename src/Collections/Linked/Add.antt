-- ===== src/Collections/Linked/Add.antt =====
-- `list_add` against the list of the data.
use fuse_ext.Base.{
  ltb, Option, ℕ, zero, suc, ◌+◌, ◌-◌, ◌≡◌, ◌≢◌, refl, sym, ◌∙◌, ◌==◌, ne→==, lt→ltb, true, false,
  some, List, [], ◌∷◌, ◌++◌, length, length-append, Ptr, arith, ok,
}
use fuse_ext.Collections.Linked.{
  Node, Heap, lookup, Malloc, LinkedList, link_element, get_element_loop, get_element,
  create_element, list_add,
}
use fuse_ext.Collections.Linked.Seg.{
  IsOutside, Seg, stop, cell, IsList, lookup_same, lookup_other, node_at_lem, Seg-IsOutside,
  IsOutside-unused,
}

IsOutside-append : (p q : Ptr) (ps : List Ptr) → IsOutside p ps → p ≢ q → IsOutside p (ps ++ q ∷ [])
IsOutside-append p q [] out ne = (ne, tt)
IsOutside-append p q (r ∷ ps) out ne = (out.0, IsOutside-append p q ps out.1 ne)

-- The last cell of a chain, found by walking, and the chain when that cell is linked to a new one.
record IsLinked (h : Heap) (p q last : Ptr) (n : Node) (k x : ℕ) (ps : List Ptr) (xs : List ℕ)
    : Type 0 where
  walk : get_element_loop h k p ≡ ok last
  positive : last ≢ 0
  found : lookup h last ≡ some n
  inside : (r : Ptr) → IsOutside r ps → r ≢ last
  linked : Seg ((last, some (record n { next = q })) ∷ h) p (ps ++ q ∷ []) (xs ++ x ∷ [])

module _ {h : Heap} (q : Ptr) (x : ℕ) (q-positive : q ≢ 0)
    (q-new : lookup h q ≡ some (record { data_of = x; next = 0 })) where
  link-last :
      {p : Ptr} {ps : List Ptr} {xs : List ℕ} (k : ℕ)
      → Seg h p ps xs
      → length xs ≡ suc k
      → IsOutside q ps
      → (last : Ptr) × (n : Node) × IsLinked h p q last n k x ps xs
  unfolding get_element_loop
  link-last k (stop e) len out = absurd (omega arith)
  link-last {p} zero (cell n positive found distinct (stop e)) len out =
      let c : Option Node = some (record n { next = q }) in
      (
        p,
        n,
        record {
          walk = refl;
          positive = positive;
          found = found;
          inside = λ r o. o.0;
          linked =
              cell (record n { next = q }) positive (lookup_same h p c) ((λ e. out.0 (sym e)), tt)
                (cell (record { data_of = x; next = 0 }) q-positive
                  (lookup_other h q p c out.0 ∙ q-new) tt (stop refl));
        },
      )
  link-last (suc k) (cell n positive found distinct (stop e)) len out = absurd (omega arith)
  link-last zero (cell n positive found distinct (cell n' a b c d)) len out = absurd (omega arith)
  link-last {p} (suc k) (cell {ps} n positive found distinct (cell n' a b c d)) len out =
      let (last, m, tail) = link-last k (cell n' a b c d) (omega arith) out.1 in
      let w = some (record m { next = q }) in
      let apart : p ≢ last = tail.inside p distinct in
      (
        last,
        m,
        record {
          walk = rw (node_at_lem h p n positive found) tail.walk;
          positive = tail.positive;
          found = tail.found;
          inside = λ r o. tail.inside r o.1;
          linked =
              cell n positive (lookup_other h p last w apart ∙ found)
                (IsOutside-append p q ps distinct (λ e. out.0 (sym e))) tail.linked;
        },
      )

-- The heap, the list and the index after an element was added.
abbrev IsAdded : Malloc → Heap → LinkedList → List Ptr → List ℕ → ℕ → Type 0
IsAdded malloc h self ps xs x =
    (after : Heap) × (self' : LinkedList) × (list_add malloc h self x
      ≡ ok (after, self', length xs))
    × IsList after self' (ps ++ malloc.alloc h ∷ []) (xs ++ x ∷ [])
    × ((r : Ptr) → IsOutside r ps → r ≢ malloc.alloc h → lookup after r ≡ lookup h r)

pub alloc_ne : (malloc : Malloc) (h : Heap) → malloc.alloc h ≢ 0
alloc_ne malloc h e = omega (arith, malloc.alloc-positive h)

module _ (malloc : Malloc) (h : Heap) (self : LinkedList) (x : ℕ) where
  -- An element behind the cell at which the walk over the others ends.
  add_behind :
      (k : ℕ) (last : Ptr) (m : Node)
      → self.elements_count ≡ suc k
      → get_element_loop (create_element malloc h x).0 k self.head ≡ ok last
      → last ≢ 0
      → lookup (create_element malloc h x).0 last ≡ some m
      → list_add malloc h self x
        ≡ ok (
          (last, some (record m { next = malloc.alloc h })) ∷ (create_element malloc h x).0,
          record self { elements_count = suc k + 1 },
          suc k,
        )
  unfolding list_add get_element link_element
  add_behind k last m count walk positive found =
      let some_element : (suc k == 0) ≡ false = ground arith in
      let pred : suc k - 1 ≡ k = omega arith in
      let inside : ltb k (suc k) ≡ true = lt→ltb _ _ (omega arith) in
      rw (count, some_element, pred, inside) (rw walk (rw (ne→== last 0 positive, found)))

  add_chain :
      {ps : List Ptr} {xs : List ℕ}
      → Seg h self.head ps xs
      → self.elements_count ≡ length xs
      → IsAdded malloc h self ps xs x
  unfolding list_add
  add_chain (stop e) count =
      let q = malloc.alloc h in
      let c : Node = record { data_of = x; next = 0 } in
      (
        (q, some c) ∷ h,
        record { head = q; elements_count = 1 },
        rw count refl,
        record {
          chain = cell c (alloc_ne malloc h) (lookup_same h q (some c)) tt (stop refl);
          count = refl;
        },
        λ r out ne. lookup_other h r q (some c) ne,
      )
  add_chain (cell {p} {ps} {xs} n positive found distinct rest) count =
      let q = malloc.alloc h in
      let c : Node = record { data_of = x; next = 0 } in
      let whole : Seg h self.head (p ∷ ps) (n.data_of ∷ xs) = cell n positive found distinct rest in
      let out : IsOutside q (p ∷ ps) = IsOutside-unused q (malloc.alloc_unused h) whole in
      let (last, m, done) =
        link-last {h = (q, some c) ∷ h} q x (alloc_ne malloc h) (lookup_same h q (some c))
          (length xs) (Seg-IsOutside q (some c) out whole) refl out in
      (
        (last, some (record m { next = q })) ∷ (q, some c) ∷ h,
        record self { elements_count = suc (length xs) + 1 },
        add_behind (length xs) last m count done.walk done.positive done.found,
        record {
          chain = done.linked;
          count = omega (arith, length-append (n.data_of ∷ xs) (x ∷ []));
        },
        λ r apart ne.
            lookup_other ((q, some c) ∷ h) r last (some (record m { next = q }))
              (done.inside r apart)
            ∙ lookup_other h r q (some c) ne,
      )

-- On a well-formed list `list_add` returns, with the new element behind the others and its index as
-- the result; the list after it is well formed, its cells are the old ones and the new one, and no
-- other cell has changed.
pub list_add-IsList :
    (malloc : Malloc) (h : Heap) (self : LinkedList) (ps : List Ptr) (xs : List ℕ) (x : ℕ)
    → IsList h self ps xs
    → (after : Heap) × (self' : LinkedList) × (list_add malloc h self x
        ≡ ok (after, self', length xs))
      × IsList after self' (ps ++ malloc.alloc h ∷ []) (xs ++ x ∷ [])
      × ((r : Ptr) → IsOutside r ps → r ≢ malloc.alloc h → lookup after r ≡ lookup h r)
list_add-IsList malloc h self ps xs x list = add_chain malloc h self x list.chain list.count
