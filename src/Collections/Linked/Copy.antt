-- ===== src/Collections/Linked/Copy.antt =====
-- `list_filter` and `list_map`: a new list beside the old one.
use fuse_ext.Base.{
  ℕ, zero, suc, ◌+◌, ◌<◌, ◌≡◌, ◌≢◌, refl, sym, subst, ap, ◌∙◌, Bool, true, false, Bool-cases, inl,
  inr, ne→==, if◌then◌else◌, Option, none, some, List, [], ◌∷◌, ◌++◌, append_assoc, append-nil, map,
  length, Ptr, arith, Outcome, ok,
}
use fuse_ext.Collections.Linked.{Heap, lookup, Malloc, LinkedList}
use fuse_ext.Collections.Linked.Seg.{Seg, stop, cell, IsList}
use fuse_ext.Collections.Linked.Whole.{iterate_loop, list_iterate, added, list_filter, list_map}
use fuse_ext.Collections.Linked.Fresh.{AreKept-IsList, IsCopied, IsCopied-added, IsCopied-empty}

abbrev before_others : Option ℕ → List ℕ → List ℕ
before_others none xs = xs
before_others (some x) xs = x ∷ xs

abbrev select : (ℕ → Option ℕ) → List ℕ → List ℕ
select choose [] = []
select choose (x ∷ xs) = before_others (choose x) (select choose xs)

abbrev pub filter : (ℕ → Bool) → List ℕ → List ℕ
filter condition [] = []
filter condition (x ∷ xs) = if condition x then x ∷ filter condition xs else filter condition xs

select-filter :
    (condition : ℕ → Bool) (xs : List ℕ)
    → select (λ x. if condition x then some x else none) xs ≡ filter condition xs
select-filter condition [] = refl
select-filter condition (x ∷ xs) = elim (Bool-cases (condition x)) [
  | inl e ↦ rw e (ap (λ (ys : List ℕ). x ∷ ys) (select-filter condition xs))
  | inr e ↦ rw e (select-filter condition xs)
]

select-map :
    (transformer : ℕ → ℕ) (xs : List ℕ) → select (λ x. some (transformer x)) xs ≡ map transformer xs
select-map transformer [] = refl
select-map transformer (x ∷ xs) =
    ap (λ (ys : List ℕ). transformer x ∷ ys) (select-map transformer xs)

module _ (malloc : Malloc) where
  -- What a round of `list_filter` or `list_map` adds, if anything.
  add_selected : Option ℕ → Heap → LinkedList → Outcome (Heap × LinkedList)
  add_selected none h self = ok (h, self)
  add_selected (some y) h self = added malloc h self y

  IsCopied-selected :
      {h h' : Heap} {self : LinkedList} {ps : List Ptr} {xs : List ℕ} (y : Option ℕ)
      (choose : ℕ → Option ℕ) (x : ℕ) (rest : List ℕ)
      → choose x ≡ y
      → IsCopied h h' self ps xs
      → (after : Heap) × (self' : LinkedList) × (ps' : List Ptr) × (xs' : List ℕ) × (add_selected y
            h' self
          ≡ ok (after, self'))
        × IsCopied h after self' ps' xs'
        × (xs' ++ select choose rest ≡ xs ++ select choose (x ∷ rest))
  unfolding add_selected
  IsCopied-selected {h} {h'} {self} {ps} {xs} none choose x rest e copied =
      (h', self, ps, xs, refl, copied, rw e refl)
  IsCopied-selected {h} {h'} {self} {ps} {xs} (some y) choose x rest e copied =
      let (after, self', run, more) = IsCopied-added malloc y copied in
      (
        after,
        self',
        ps ++ malloc.alloc h' ∷ [],
        xs ++ y ∷ [],
        run,
        more,
        rw e (append_assoc xs (y ∷ []) (select choose rest)),
      )

  module _ (closure : Heap → LinkedList → ℕ → Outcome (Heap × LinkedList)) (choose : ℕ → Option ℕ)
      (adds : (h : Heap) (self : LinkedList) (x : ℕ)
        → closure h self x ≡ add_selected (choose x) h self)
      {h : Heap} where
    iterate_loop-IsCopied :
        {p : Ptr} {ps qs : List Ptr} {xs ys : List ℕ} {h' : Heap} {copy : LinkedList} (fuel : ℕ)
        → Seg h p ps xs
        → length xs < fuel
        → IsCopied h h' copy qs ys
        → (after : Heap) × (copy' : LinkedList) × (qs' : List Ptr) × (iterate_loop closure fuel h' p
              copy
            ≡ ok (after, copy'))
          × IsCopied h after copy' qs' (ys ++ select choose xs)
    unfolding iterate_loop
    iterate_loop-IsCopied zero chain enough copied = absurd (omega arith)
    iterate_loop-IsCopied {qs} {ys} {h'} {copy} (suc fuel) (stop e) enough copied =
        (h', copy, qs, rw e refl, rw append-nil copied)
    iterate_loop-IsCopied {p} {h'} {copy} (suc fuel) (cell {xs} n positive found distinct rest)
          enough copied =
        let used : lookup h p ≢ none = λ e. cc in
        let before : lookup h' p ≡ some n = copied.kept p used ∙ found in
        let (h1, copy1, qs1, ys1, run, more, same) =
          IsCopied-selected (choose n.data_of) choose n.data_of xs refl copied in
        let behind : lookup h1 p ≡ some n = more.kept p used ∙ found in
        let (after, copy', qs', runs, all) =
          iterate_loop-IsCopied {p = n.next} fuel rest (omega arith) more in
        (
          after,
          copy',
          qs',
          rw (ne→== p 0 positive) (rw (before) (rw (adds, run) (rw (behind) runs))),
          rw (sym same) all,
        )

  -- `list_filter` of a well-formed list ends, with a well-formed list of the elements that meet the
  -- condition, in their order, in cells that were not in use. No cell that was in use has changed,
  -- and the old list is there as before.
  pub list_filter-IsCopied :
      (h : Heap) (self : LinkedList) (ps : List Ptr) (xs : List ℕ) (condition : ℕ → Bool)
      → IsList h self ps xs
      → (after : Heap) × (copy : LinkedList) × (qs : List Ptr) × (list_filter malloc h self
            condition
          ≡ ok (after, copy))
        × IsCopied h after copy qs (filter condition xs)
        × IsList after self ps xs
  unfolding list_filter list_iterate add_selected
  list_filter-IsCopied h self ps xs condition list =
      let (after, copy, qs, run, copied) =
        iterate_loop-IsCopied
          (λ h' filtered x. if condition x then added malloc h' filtered x else ok (h', filtered))
          (λ x. if condition x then some x else none)
          (λ h' filtered x. by_test (condition x) h' filtered x) (self.elements_count + 1)
          list.chain (omega (arith, list.count)) (IsCopied-empty h) in
      (
        after,
        copy,
        qs,
        run,
        subst (IsCopied h after copy qs) (select-filter condition xs) copied,
        AreKept-IsList copied.kept list,
      )
    where
      by_test :
          (b : Bool) (h' : Heap) (filtered : LinkedList) (x : ℕ)
          → (if b then added malloc h' filtered x else ok (h', filtered))
            ≡ add_selected (if b then some x else none) h' filtered
      by_test true h' filtered x = unfold add_selected in refl
      by_test false h' filtered x = unfold add_selected in refl

  -- `list_map` of a well-formed list ends, with a well-formed list of the transformed elements, in
  -- their order, in cells that were not in use. No cell that was in use has changed, and the old
  -- list is there as before.
  pub list_map-IsCopied :
      (h : Heap) (self : LinkedList) (ps : List Ptr) (xs : List ℕ) (transformer : ℕ → ℕ)
      → IsList h self ps xs
      → (after : Heap) × (copy : LinkedList) × (qs : List Ptr) × (list_map malloc h self transformer
          ≡ ok (after, copy))
        × IsCopied h after copy qs (map transformer xs)
        × IsList after self ps xs
  unfolding list_map list_iterate add_selected
  list_map-IsCopied h self ps xs transformer list =
      let (after, copy, qs, run, copied) =
        iterate_loop-IsCopied (λ h' mapped x. added malloc h' mapped (transformer x))
          (λ x. some (transformer x)) (λ h' mapped x. refl) (self.elements_count + 1) list.chain
          (omega (arith, list.count)) (IsCopied-empty h) in
      (
        after,
        copy,
        qs,
        run,
        subst (IsCopied h after copy qs) (select-map transformer xs) copied,
        AreKept-IsList copied.kept list,
      )
