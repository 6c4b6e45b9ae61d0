-- ===== src/Collections/Linked/Remove.antt =====
-- `list_remove` against the list of the data.
use fuse_ext.Base.{
  ℕ, zero, suc, ◌-◌, ◌≤◌, ◌<◌, ◌≡◌, ◌≢◌, refl, sym, ◌∙◌, true, false, ◌==◌, ne→==, ltb, lt→ltb,
  le→ltb, Option, none, some, List, [], ◌∷◌, length, get_or, Ptr, arith, ok, fault,
}
use fuse_ext.Base.Int.{pos, negsuc}
use fuse_ext.Collections.Linked.{
  Node, Heap, lookup, LinkedList, get_element_loop, get_element, link_element, unlink, list_remove,
}
use fuse_ext.Collections.Linked.Seg.{
  IsOutside, Seg, stop, cell, IsList, lookup_same, lookup_other, node_at_lem, Seg-IsOutside,
}

abbrev pub remove_at {ℓ} : {A : Type ℓ} → ℕ → List A → List A
remove_at i [] = []
remove_at zero (x ∷ xs) = xs
remove_at (suc i) (x ∷ xs) = x ∷ remove_at i xs

length-remove_at : (i : ℕ) (xs : List ℕ) → i < length xs → length (remove_at i xs) ≡ length xs - 1
length-remove_at i [] h = absurd (omega arith)
length-remove_at zero (x ∷ xs) h = omega arith
length-remove_at (suc i) (x ∷ xs) h = omega (arith, length-remove_at i xs (omega arith))

IsOutside-remove_at :
    (p : Ptr) (i : ℕ) (ps : List Ptr) → IsOutside p ps → IsOutside p (remove_at i ps)
IsOutside-remove_at p i [] out = tt
IsOutside-remove_at p zero (q ∷ ps) out = out.1
IsOutside-remove_at p (suc i) (q ∷ ps) out = (out.0, IsOutside-remove_at p i ps out.1)

-- The cell k, the one behind it, and the chain when that one is taken out and freed.
record IsUnlinked (h : Heap) (p : Ptr) (k : ℕ) (ps : List Ptr) (xs : List ℕ) (prev aux : Ptr)
    (m n : Node) : Type 0 where
  walk : get_element_loop h k p ≡ ok prev
  walk_next :
      (first : Node) × (lookup h p ≡ some first) × (get_element_loop h k first.next ≡ ok aux)
  positive : prev ≢ 0
  aux_positive : aux ≢ 0
  found : lookup h prev ≡ some m
  aux_found : lookup h aux ≡ some n
  datum : n.data_of ≡ get_or xs (suc k) 0
  inside : (r : Ptr) → IsOutside r ps → (r ≢ prev) × (r ≢ aux)
  chain :
      Seg
        ((aux, none) ∷ (prev, some (record m { next = n.next })) ∷ h)
        p
        (remove_at (suc k) ps)
        (remove_at (suc k) xs)

module _ {h : Heap} where
  Seg-unlink :
      {p : Ptr} {ps : List Ptr} {xs : List ℕ} (k : ℕ)
      → Seg h p ps xs
      → suc k < length xs
      → (prev aux : Ptr) × (m n : Node) × IsUnlinked h p k ps xs prev aux m n
  unfolding get_element_loop
  Seg-unlink k (stop e) inside = absurd (omega arith)
  Seg-unlink k (cell n positive found distinct (stop e)) inside = absurd (omega arith)
  Seg-unlink {p} zero (cell n positive found distinct (cell n' positive' found' distinct' rest))
        inside =
      let q = n.next in
      let w : Option Node = some (record n { next = n'.next }) in
      (
        p,
        q,
        n,
        n',
        record {
          walk = refl;
          walk_next = (n, found, refl);
          positive = positive;
          aux_positive = positive';
          found = found;
          aux_found = found';
          datum = refl;
          inside = λ r out. (out.0, out.1.0);
          chain =
              cell (record n { next = n'.next }) positive
                (lookup_other ((p, w) ∷ h) p q none distinct.0 ∙ lookup_same h p w) distinct.1
                (Seg-IsOutside q none distinct' (Seg-IsOutside p w distinct.1 rest));
        },
      )
  Seg-unlink {p} (suc k) (cell {ps} n positive found distinct (cell n' a b c d)) inside =
      let (prev, aux, m, m', tail) = Seg-unlink k (cell n' a b c d) (omega arith) in
      let w : Option Node = some (record m { next = m'.next }) in
      let apart = tail.inside p distinct in
      (
        prev,
        aux,
        m,
        m',
        record {
          walk = rw (node_at_lem h p n positive found) tail.walk;
          walk_next =
              let (first, at, rest) = tail.walk_next in
              (n, found, rw (node_at_lem h n.next first a at) rest);
          positive = tail.positive;
          aux_positive = tail.aux_positive;
          found = tail.found;
          aux_found = tail.aux_found;
          datum = tail.datum;
          inside = λ r out. tail.inside r out.1;
          chain =
              cell n positive
                (lookup_other ((prev, w) ∷ h) p aux none apart.1
                  ∙ lookup_other h p prev w apart.0
                  ∙ found)
                (IsOutside-remove_at p (suc k) ps distinct) tail.chain;
        },
      )

module _ (h : Heap) (self : LinkedList) where
  -- The result of a removal.
  abbrev IsRemoved : List Ptr → List ℕ → ℕ → Type 0
  IsRemoved ps xs i =
      (after : Heap) × (self' : LinkedList) × (list_remove h self (pos i)
        ≡ ok (after, self', get_or xs i 0))
      × IsList after self' (remove_at i ps) (remove_at i xs)

  remove_behind :
      {ps : List Ptr} {xs : List ℕ} (k : ℕ)
      → self.head ≢ 0
      → IsList h self ps xs
      → suc k < length xs
      → IsRemoved ps xs (suc k)
  unfolding list_remove unlink get_element link_element
  remove_behind {xs} k some_head list inside =
      let (prev, aux, m, n, done) = Seg-unlink k list.chain inside in
      let (first, at, rest) = done.walk_next in
      let in_next : ltb (suc k) (length xs) ≡ true = lt→ltb _ _ inside in
      let in_prev : ltb k (length xs) ≡ true = lt→ltb _ _ (omega arith) in
      let behind_first : (suc k == 0) ≡ false = ground arith in
      (
        (aux, none) ∷ (prev, some (record m { next = n.next })) ∷ h,
        record { head = self.head; elements_count = length xs - 1 },
        rw (ne→== self.head 0 some_head, list.count, in_next, in_prev, behind_first)
            (rw (at, rest, done.walk)
              (rw (ne→== aux 0 done.aux_positive, done.aux_found)
                (rw (ne→== prev 0 done.positive, done.found) (rw done.datum refl)))),
        record { chain = done.chain; count = sym (length-remove_at (suc k) xs inside) },
      )

  remove_first :
      {ps : List Ptr} {xs : List ℕ}
      → Seg h self.head ps xs
      → self.elements_count ≡ length xs
      → 0 < length xs
      → IsRemoved ps xs 0
  unfolding list_remove unlink get_element
  remove_first (stop e) count inside = absurd (omega arith)
  remove_first (cell {ps} {xs} n positive found distinct rest) count inside =
      let in_range : ltb 0 (suc (length xs)) ≡ true = lt→ltb _ _ inside in
      let less : suc (length xs) - 1 ≡ length xs = omega arith in
      (
        (self.head, none) ∷ h,
        record { head = n.next; elements_count = suc (length xs) - 1 },
        rw (ne→== self.head 0 positive, count, in_range) (rw (ne→== self.head 0 positive, found)),
        record { chain = Seg-IsOutside self.head none distinct rest; count = less },
      )

  Seg-positive : {p : Ptr} {ps : List Ptr} {xs : List ℕ} → Seg h p ps xs → 0 < length xs → p ≢ 0
  Seg-positive (stop e) inside = absurd (omega arith)
  Seg-positive (cell n positive found distinct rest) inside = positive

-- On a well-formed list `list_remove` of an index in range returns the element there; the list after
-- it is well formed, without that element and its cell, and the others are in their order.
pub list_remove-IsList :
    (h : Heap) (self : LinkedList) (ps : List Ptr) (xs : List ℕ) (i : ℕ)
    → IsList h self ps xs
    → i < length xs
    → (after : Heap) × (self' : LinkedList) × (list_remove h self (pos i)
        ≡ ok (after, self', get_or xs i 0))
      × IsList after self' (remove_at i ps) (remove_at i xs)
list_remove-IsList h self ps xs zero list inside = remove_first h self list.chain list.count inside
list_remove-IsList h self ps xs (suc k) list inside =
    remove_behind h self k (Seg-positive h self list.chain (omega arith)) list inside

-- On a well-formed list with elements, `list_remove` reads through NULL for every index out of range.
pub list_remove_outside :
    (h : Heap) (self : LinkedList) (ps : List Ptr) (xs : List ℕ)
    → IsList h self ps xs
    → 0 < length xs
    → ((i : ℕ) → length xs ≤ i → list_remove h self (pos i) ≡ fault)
      × ((n : ℕ) → list_remove h self (negsuc n) ≡ fault)
unfolding list_remove get_element
list_remove_outside h self ps xs list some_elements =
    let positive = Seg-positive h self list.chain some_elements in
    (
      λ i past. rw (ne→== self.head 0 positive, list.count, le→ltb i (length xs) past),
      λ n. rw (ne→== self.head 0 positive),
    )
