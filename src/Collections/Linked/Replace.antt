-- ===== src/Collections/Linked/Replace.antt =====
-- `list_replace` against the list of the data.
use fuse_ext.Base.{
  ℕ, zero, suc, ◌<◌, ◌≤◌, ◌≡◌, ◌≢◌, refl, sym, ap, ◌∙◌, ne→==, ltb, ltb→lt, ltb→le, Bool-cases, inl,
  inr, Option, some, List, [], ◌∷◌, length, get_or, Ptr, arith, ok,
}
use fuse_ext.Base.Int.{ℤ, pos, negsuc}
use fuse_ext.Collections.Linked.{
  Node, Heap, lookup, LinkedList, get_element_loop, get_element, list_replace,
}
use fuse_ext.Collections.Linked.Seg.{
  IsOutside, Seg, stop, cell, IsList, lookup_same, lookup_other, node_at_lem, Seg-IsOutside,
}
use fuse_ext.Collections.Linked.Query.{element_at, get_or_outside}

-- The list with an element in place of the one at an index; the same list out of range.
abbrev pub set_at : ℕ → ℕ → List ℕ → List ℕ
set_at i x [] = []
set_at zero x (y ∷ ys) = x ∷ ys
set_at (suc i) x (y ∷ ys) = y ∷ set_at i x ys

abbrev pub replaced : List ℕ → ℤ → ℕ → List ℕ
replaced xs (pos i) x = set_at i x xs
replaced xs (negsuc n) x = xs

length-set_at : (i x : ℕ) (xs : List ℕ) → length (set_at i x xs) ≡ length xs
length-set_at i x [] = refl
length-set_at zero x (y ∷ ys) = refl
length-set_at (suc i) x (y ∷ ys) = ap suc (length-set_at i x ys)

set_at_outside : (i x : ℕ) (xs : List ℕ) → length xs ≤ i → set_at i x xs ≡ xs
set_at_outside i x [] h = refl
set_at_outside zero x (y ∷ ys) h = absurd (omega arith)
set_at_outside (suc i) x (y ∷ ys) h =
    ap (λ (zs : List ℕ). y ∷ zs) (set_at_outside i x ys (omega arith))

-- The cell at an index, and the chain with another datum in it.
record IsReplaced (h : Heap) (p : Ptr) (i x : ℕ) (ps : List Ptr) (xs : List ℕ) (q : Ptr) (n : Node)
    : Type 0 where
  walk : get_element_loop h i p ≡ ok q
  positive : q ≢ 0
  found : lookup h q ≡ some n
  datum : n.data_of ≡ get_or xs i 0
  inside : (r : Ptr) → IsOutside r ps → r ≢ q
  chain : Seg ((q, some (record n { data_of = x })) ∷ h) p ps (set_at i x xs)

module _ {h : Heap} (x : ℕ) where
  Seg-IsReplaced :
      {p : Ptr} {ps : List Ptr} {xs : List ℕ} (i : ℕ)
      → Seg h p ps xs
      → i < length xs
      → (q : Ptr) × (n : Node) × IsReplaced h p i x ps xs q n
  unfolding get_element_loop
  Seg-IsReplaced i (stop e) inside = absurd (omega arith)
  Seg-IsReplaced {p} zero (cell n positive found distinct rest) inside =
      let w : Option Node = some (record n { data_of = x }) in
      (
        p,
        n,
        record {
          walk = refl;
          positive = positive;
          found = found;
          datum = refl;
          inside = λ r out. out.0;
          chain =
              cell (record n { data_of = x }) positive (lookup_same h p w) distinct
                (Seg-IsOutside p w distinct rest);
        },
      )
  Seg-IsReplaced {p} (suc i) (cell n positive found distinct rest) inside =
      let (q, m, at) = Seg-IsReplaced i rest (omega arith) in
      let w : Option Node = some (record m { data_of = x }) in
      (
        q,
        m,
        record {
          walk = rw (node_at_lem h p n positive found) at.walk;
          positive = at.positive;
          found = at.found;
          datum = at.datum;
          inside = λ r out. at.inside r out.1;
          chain =
              cell n positive (lookup_other h p q w (at.inside p distinct) ∙ found) distinct
                at.chain;
        },
      )

-- `list_replace` on a well-formed list, at any index: the result is the element that was there; the
-- list after is well formed, in the same cells, with the new element there and the others as before.
-- Out of range, negative indices included, the result is NULL and the list is as before.
pub list_replace-IsList :
    (h : Heap) (self : LinkedList) (ps : List Ptr) (xs : List ℕ) (index : ℤ) (x : ℕ)
    → IsList h self ps xs
    → (after : Heap) × (list_replace h self index x ≡ ok (after, element_at xs index))
      × IsList after self ps (replaced xs index x)
unfolding list_replace get_element
list_replace-IsList h self ps xs (negsuc n) x list = (h, refl, list)
list_replace-IsList h self ps xs (pos i) x list = elim (Bool-cases (ltb i (length xs))) [
  | inl e ↦
      let (q, n, at) = Seg-IsReplaced x i list.chain (ltb→lt i (length xs) e) in
      (
        (q, some (record n { data_of = x })) ∷ h,
        rw (list.count, e) (rw at.walk (rw (ne→== q 0 at.positive, at.found) (rw at.datum refl))),
        record { chain = at.chain; count = list.count ∙ sym (length-set_at i x xs) },
      )
  | inr e ↦
      let past = ltb→le i (length xs) e in
      (h, rw (list.count, e, get_or_outside xs i past) refl, rw (set_at_outside i x xs past) list)
]
