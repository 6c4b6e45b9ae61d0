-- ===== src/Collections/Linked/Take.antt =====
-- `list_take`: a new list beside the old one.
use fuse_ext.Base.{
  ℕ, zero, suc, ◌+◌, ◌≡◌, refl, sym, subst, ap, ◌∙◌, drop, List, [], ◌∷◌, ◌++◌, append_assoc,
  append-nil, get_or, Ptr, arith, ok,
}
use fuse_ext.Base.Int.{pos}
use fuse_ext.Collections.Linked.{Heap, Malloc, LinkedList}
use fuse_ext.Collections.Linked.Seg.{IsList}
use fuse_ext.Collections.Linked.Query.{list_get-element_at}
use fuse_ext.Collections.Linked.Whole.{take_loop, list_take}
use fuse_ext.Collections.Linked.Fresh.{AreKept-IsList, IsCopied, IsCopied-added, IsCopied-empty}

-- The first so many elements, with NULL for those that are missing.
abbrev pub padded : ℕ → List ℕ → List ℕ
padded zero xs = []
padded (suc n) [] = 0 ∷ padded n []
padded (suc n) (x ∷ xs) = x ∷ padded n xs

padded-drop :
    (n i : ℕ) (xs : List ℕ)
    → padded (suc n) (drop i xs) ≡ get_or xs i 0 ∷ padded n (drop (suc i) xs)
padded-drop n zero [] = refl
padded-drop n zero (x ∷ xs) = refl
padded-drop n (suc i) [] = refl
padded-drop n (suc i) (x ∷ xs) = padded-drop n i xs

module _ (malloc : Malloc) where
  take_loop-IsCopied :
      {h h' : Heap} {self copy : LinkedList} {ps qs : List Ptr} {xs ys : List ℕ} (left i : ℕ)
      → IsList h self ps xs
      → IsCopied h h' copy qs ys
      → (after : Heap) × (copy' : LinkedList) × (qs' : List Ptr) × (take_loop malloc self left i h'
            copy
          ≡ ok (after, copy'))
        × IsCopied h after copy' qs' (ys ++ padded left (drop i xs))
  unfolding take_loop
  take_loop-IsCopied {h'} {copy} {qs} zero i list copied =
      (h', copy, qs, refl, rw append-nil copied)
  take_loop-IsCopied {h} {h'} {self} {copy} {ps} {qs} {xs} {ys} (suc left) i list copied =
      let x = get_or xs i 0 in
      let e : i + 1 ≡ suc i = omega arith in
      let got = list_get-element_at h' self ps xs (pos i) (AreKept-IsList copied.kept list) in
      let (h1, copy1, run, more) = IsCopied-added malloc x copied in
      let (after, copy', qs', runs, all) = take_loop-IsCopied {h' = h1} left (i + 1) list more in
      (
        after,
        copy',
        qs',
        rw (got, run) runs,
        subst (IsCopied h after copy' qs')
            (append_assoc ys (x ∷ []) (padded left (drop (i + 1) xs))
              ∙ rw e (ap (λ (zs : List ℕ). ys ++ zs) (sym (padded-drop left i xs))))
            all,
      )

  -- `list_take` of a well-formed list, with a count that is not negative, ends with a well-formed
  -- list of the first so many elements, in cells that were not in use; where the list is shorter,
  -- NULL stands for each element that is missing. No cell that was in use has changed, and the old
  -- list is there as before.
  pub list_take-IsCopied :
      (h : Heap) (self : LinkedList) (ps : List Ptr) (xs : List ℕ) (count : ℕ)
      → IsList h self ps xs
      → (after : Heap) × (copy : LinkedList) × (qs : List Ptr) × (list_take malloc h self count
          ≡ ok (after, copy))
        × IsCopied h after copy qs (padded count xs)
        × IsList after self ps xs
  unfolding list_take
  list_take-IsCopied h self ps xs count list =
      let (after, copy, qs, run, copied) = take_loop-IsCopied count 0 list (IsCopied-empty h) in
      (after, copy, qs, run, copied, AreKept-IsList copied.kept list)
