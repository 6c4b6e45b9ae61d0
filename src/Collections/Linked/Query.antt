-- ===== src/Collections/Linked/Query.antt =====
-- `list_get` and `list_find` against the list of the data.
use fuse_ext.Base.{
  ℕ, zero, suc, ◌+◌, ◌≤◌, ◌<◌, ◌≡◌, ◌≢◌, refl, ap, Bool, ne→==, ltb, ltb→lt, ltb→le, Option, none,
  some, List, [], ◌∷◌, length, get_or, Ptr, arith, ok, Bool-cases, inl, inr,
}
use fuse_ext.Base.Int.{ℤ, pos, negsuc}
use fuse_ext.Collections.View.{find}
use fuse_ext.Collections.Linked.{
  Node, Heap, lookup, LinkedList, get_element_loop, get_element, data_at, list_get, find_loop,
  find_element, list_find,
}
use fuse_ext.Collections.Linked.Seg.{Seg, stop, cell, IsList, node_at_lem}

pub get_or_outside : (xs : List ℕ) (i : ℕ) → length xs ≤ i → get_or xs i 0 ≡ 0
get_or_outside [] i h = refl
get_or_outside (x ∷ xs) zero h = absurd (omega arith)
get_or_outside (x ∷ xs) (suc i) h = get_or_outside xs i (omega arith)

-- The cell at which a walk ends.
pub record IsAt (h : Heap) (p : Ptr) (i : ℕ) (xs : List ℕ) (q : Ptr) (n : Node) : Type 0 where
  pub walk : get_element_loop h i p ≡ ok q
  pub positive : q ≢ 0
  pub found : lookup h q ≡ some n
  pub datum : n.data_of ≡ get_or xs i 0

module _ {h : Heap} where
  pub Seg-IsAt :
      {p : Ptr} {ps : List Ptr} {xs : List ℕ} (i : ℕ)
      → Seg h p ps xs
      → i < length xs
      → (q : Ptr) × (n : Node) × IsAt h p i xs q n
  unfolding get_element_loop
  Seg-IsAt i (stop e) inside = absurd (omega arith)
  Seg-IsAt {p} zero (cell n positive found distinct rest) inside =
      (p, n, record { walk = refl; positive = positive; found = found; datum = refl })
  Seg-IsAt {p} (suc i) (cell n positive found distinct rest) inside =
      let (q, m, at) = Seg-IsAt i rest (omega arith) in
      (
        q,
        m,
        record {
          walk = rw (node_at_lem h p n positive found) at.walk;
          positive = at.positive;
          found = at.found;
          datum = at.datum;
        },
      )

-- The element at an index, NULL out of range.
abbrev pub element_at : List ℕ → ℤ → ℕ
element_at xs (pos i) = get_or xs i 0
element_at xs (negsuc n) = 0

-- On a well-formed list `list_get` returns the element at the index, and NULL for every index out of
-- range, negative ones included.
pub list_get-element_at :
    (h : Heap) (self : LinkedList) (ps : List Ptr) (xs : List ℕ) (index : ℤ)
    → IsList h self ps xs
    → list_get h self index ≡ ok (element_at xs index)
unfolding list_get get_element
list_get-element_at h self ps xs (negsuc n) list = refl
list_get-element_at h self ps xs (pos i) list = elim (Bool-cases (ltb i (length xs))) [
  | inl e ↦
      let (q, n, at) = Seg-IsAt i list.chain (ltb→lt i (length xs) e) in
      rw (list.count, e) (rw at.walk (rw (ne→== q 0 at.positive, at.found) (ap ok at.datum)))
  | inr e ↦
      let outside = get_or_outside xs i (ltb→le i (length xs) e) in rw (list.count, e, outside) refl
]

abbrev pub or_null : Option ℕ → ℕ
or_null none = 0
or_null (some x) = x

module _ {h : Heap} (condition : ℕ → Bool) where
  find_loop-find :
      {p : Ptr} {ps : List Ptr} {xs : List ℕ} (fuel position : ℕ)
      → Seg h p ps xs
      → length xs < fuel
      → (q : Ptr) × (r : ℕ) × (find_loop h condition fuel p position ≡ ok (q, r))
        × (data_at h q ≡ ok (or_null (find condition xs)))
  unfolding find_loop
  find_loop-find zero position chain enough = absurd (omega arith)
  find_loop-find (suc fuel) position (stop e) enough = (0, position, rw e refl, refl)
  find_loop-find {p} (suc fuel) position (cell {xs} n positive found distinct rest) enough =
      let (q, r, run, datum) = find_loop-find fuel (position + 1) rest (omega arith) in
      elim (Bool-cases (condition n.data_of)) [
        | inl e ↦ (
          p,
          position,
          rw (ne→== p 0 positive) (rw (found) (rw e refl)),
          rw (ne→== p 0 positive) (rw (found) (rw e refl)),
        )
        | inr e ↦ (q, r, rw (ne→== p 0 positive) (rw (found) (rw e run)), rw e datum)
      ]

-- On a well-formed list the search ends: `list_find` returns the first element that meets the
-- condition, and NULL when there is none.
pub list_find-find :
    (h : Heap) (self : LinkedList) (ps : List Ptr) (xs : List ℕ) (condition : ℕ → Bool)
    → IsList h self ps xs
    → list_find h self condition ≡ ok (or_null (find condition xs))
unfolding list_find find_element
list_find-find h self ps xs condition list =
    let (q, r, run, datum) =
      find_loop-find condition (self.elements_count + 1) 0 list.chain (omega (arith, list.count)) in
    rw run datum
