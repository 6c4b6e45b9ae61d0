-- ===== src/Collections/Linked/Clean.antt =====
-- `list_iterate` with a closure that leaves the cells alone, `list_clean` and the variants that
-- also call a destroyer.
use fuse_ext.Base.{
  ℕ, zero, suc, ◌+◌, ◌<◌, ◌≡◌, refl, ◌∙◌, ne→==, none, List, [], ◌∷◌, length, Ptr, arith, ok,
}
use fuse_ext.Collections.Linked.{Heap, lookup, LinkedList, list_create, clean_loop, list_clean}
use fuse_ext.Collections.Linked.Seg.{
  IsOutside, Seg, stop, cell, IsList, lookup_same, lookup_other, Seg-IsOutside,
}
use fuse_ext.Collections.Linked.Whole.{iterate_loop, list_iterate, list_clean_and_destroy_elements}

-- Cells that are not in use.
abbrev pub AreUnused : Heap → List Ptr → Type 0
AreUnused h [] = Unit {0}
AreUnused h (p ∷ ps) = (lookup h p ≡ none) × AreUnused h ps

-- The heap after these cells were freed.
abbrev pub freed : Heap → List Ptr → Heap
freed h [] = h
freed h (p ∷ ps) = freed ((p, none) ∷ h) ps

freed_other :
    (h : Heap) (ps : List Ptr) (r : Ptr) → IsOutside r ps → lookup (freed h ps) r ≡ lookup h r
freed_other h [] r out = refl
freed_other h (p ∷ ps) r out =
    freed_other ((p, none) ∷ h) ps r out.1 ∙ lookup_other h r p none out.0

freed-AreUnused :
    {h : Heap} {p : Ptr} {xs : List ℕ} (ps : List Ptr) → Seg h p ps xs → AreUnused (freed h ps) ps
freed-AreUnused [] chain = tt
freed-AreUnused {h} (p ∷ ps) (cell n positive found distinct rest) = (
  freed_other ((p, none) ∷ h) ps p distinct ∙ lookup_same h p none,
  freed-AreUnused ps (Seg-IsOutside p none distinct rest),
)

clean_loop-Seg :
    {h : Heap} {p : Ptr} {ps : List Ptr} {xs : List ℕ} (fuel : ℕ)
    → Seg h p ps xs
    → length xs < fuel
    → clean_loop h fuel p ≡ ok (freed h ps)
unfolding clean_loop
clean_loop-Seg zero chain enough = absurd (omega arith)
clean_loop-Seg (suc fuel) (stop e) enough = rw e refl
clean_loop-Seg {p} (suc fuel) (cell n positive found distinct rest) enough =
    rw (ne→== p 0 positive, found)
      (clean_loop-Seg fuel (Seg-IsOutside p none distinct rest) (omega arith))

-- `list_clean` of a well-formed list ends: the list is empty, all its cells are free, and no other
-- cell has changed.
pub list_clean-IsList :
    (h : Heap) (self : LinkedList) (ps : List Ptr) (xs : List ℕ)
    → IsList h self ps xs
    → (after : Heap) × (list_clean h self ≡ ok (after, list_create))
      × AreUnused after ps
      × ((r : Ptr) → IsOutside r ps → lookup after r ≡ lookup h r)
unfolding list_clean
list_clean-IsList h self ps xs list = (
  freed h ps,
  rw (clean_loop-Seg (self.elements_count + 1) list.chain (omega (arith, list.count))) refl,
  freed-AreUnused ps list.chain,
  freed_other h ps,
)

-- The closure called on each element, one after the other.
abbrev pub called {ℓ} : {S : Type ℓ} → (S → ℕ → S) → S → List ℕ → S
called closure s [] = s
called closure s (x ∷ xs) = called closure (closure s x) xs

module _ {ℓ} {S : Type ℓ} (closure : S → ℕ → S) {h : Heap} where
  iterate_loop-called :
      {p : Ptr} {ps : List Ptr} {xs : List ℕ} (fuel : ℕ) (s : S)
      → Seg h p ps xs
      → length xs < fuel
      → iterate_loop (λ h' s' x. ok (h', closure s' x)) fuel h p s ≡ ok (h, called closure s xs)
  unfolding iterate_loop
  iterate_loop-called zero s chain enough = absurd (omega arith)
  iterate_loop-called (suc fuel) s (stop e) enough = rw e refl
  iterate_loop-called {p} (suc fuel) s (cell n positive found distinct rest) enough =
      rw (ne→== p 0 positive, found)
        (iterate_loop-called fuel (closure s n.data_of) rest (omega arith))

  -- With a destroyer that leaves the cells alone, `list_clean_and_destroy_elements` of a
  -- well-formed list ends: the destroyer was called once on each element, in their order; the list
  -- is empty, all its cells are free, and no other cell has changed.
  pub list_clean_and_destroy_elements-IsList :
      (self : LinkedList) (ps : List Ptr) (xs : List ℕ) (s : S)
      → IsList h self ps xs
      → (after : Heap) × (list_clean_and_destroy_elements h self
            (λ h' s' x. ok (h', closure s' x))
            s
          ≡ ok (after, list_create, called closure s xs))
        × AreUnused after ps
        × ((r : Ptr) → IsOutside r ps → lookup after r ≡ lookup h r)
  unfolding list_clean_and_destroy_elements list_iterate
  list_clean_and_destroy_elements-IsList self ps xs s list =
      let (after, run, unused, others) = list_clean-IsList h self ps xs list in
      (
        after,
        rw (iterate_loop-called (self.elements_count + 1) s list.chain (omega (arith, list.count)))
            (rw run refl),
        unused,
        others,
      )
