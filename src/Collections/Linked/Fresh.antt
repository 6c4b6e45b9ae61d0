-- ===== src/Collections/Linked/Fresh.antt =====
-- New lists beside the cells that are in use.
use fuse_ext.Base.{
  ℕ, ◌≡◌, ◌≢◌, refl, sym, ap, ◌∙◌, inl, inr, none, Option-cases, List, [], ◌∷◌, ◌++◌, Ptr, ok,
}
use fuse_ext.Collections.Linked.{Heap, lookup, Malloc, LinkedList, list_create}
use fuse_ext.Collections.Linked.Seg.{IsOutside, Seg, stop, cell, IsList}
use fuse_ext.Collections.Linked.Add.{list_add-IsList}
use fuse_ext.Collections.Linked.Clean.{AreUnused}
use fuse_ext.Collections.Linked.Whole.{added}

-- The cells in use are as they were.
abbrev pub AreKept : Heap → Heap → Type 0
AreKept h h' = (r : Ptr) → lookup h r ≢ none → lookup h' r ≡ lookup h r

-- A well-formed list all of whose cells are new; no cell that was in use has changed.
pub record IsCopied (h : Heap) (after : Heap) (self : LinkedList) (ps : List Ptr) (xs : List ℕ)
    : Type 0 where
  pub list : IsList after self ps xs
  pub unused : AreUnused h ps
  pub kept : AreKept h after

AreKept-Seg :
    {h h' : Heap} {p : Ptr} {ps : List Ptr} {xs : List ℕ}
    → AreKept h h'
    → Seg h p ps xs
    → Seg h' p ps xs
AreKept-Seg kept (stop e) = stop e
AreKept-Seg {h} {h'} {p} kept (cell n positive found distinct rest) =
    cell n positive (kept p (λ e. cc) ∙ found) distinct (AreKept-Seg kept rest)

-- A list that was there is still there.
pub AreKept-IsList :
    {h h' : Heap} {self : LinkedList} {ps : List Ptr} {xs : List ℕ}
    → AreKept h h'
    → IsList h self ps xs
    → IsList h' self ps xs
AreKept-IsList kept list = record { chain = AreKept-Seg kept list.chain; count = list.count }

AreUnused-IsOutside :
    (h : Heap) (r : Ptr) (ps : List Ptr) → lookup h r ≢ none → AreUnused h ps → IsOutside r ps
AreUnused-IsOutside h r [] found unused = tt
AreUnused-IsOutside h r (p ∷ ps) found unused =
    (λ e. found (ap (lookup h) e ∙ unused.0), AreUnused-IsOutside h r ps found unused.1)

AreUnused-append :
    (h : Heap) (q : Ptr) (ps : List Ptr)
    → AreUnused h ps
    → lookup h q ≡ none
    → AreUnused h (ps ++ q ∷ [])
AreUnused-append h q [] unused new = (new, tt)
AreUnused-append h q (p ∷ ps) unused new = (unused.0, AreUnused-append h q ps unused.1 new)

module _ (malloc : Malloc) where
  -- A cell that malloc gives later was not in use before.
  alloc_new : (h h' : Heap) → AreKept h h' → lookup h (malloc.alloc h') ≡ none
  alloc_new h h' kept = elim (Option-cases (lookup h (malloc.alloc h'))) [
    | inl e ↦ e
    | inr (n, e) ↦
        let same : lookup h' (malloc.alloc h') ≡ lookup h (malloc.alloc h') =
          kept (malloc.alloc h') (λ f. cc) in
        sym same ∙ malloc.alloc_unused h'
  ]

  pub IsCopied-added :
      {h h' : Heap} {self : LinkedList} {ps : List Ptr} {xs : List ℕ} (x : ℕ)
      → IsCopied h h' self ps xs
      → (after : Heap) × (self' : LinkedList) × (added malloc h' self x ≡ ok (after, self'))
        × IsCopied h after self' (ps ++ malloc.alloc h' ∷ []) (xs ++ x ∷ [])
  IsCopied-added {h} {h'} {self} {ps} {xs} x copied =
      let (after, self', run, list, others) = list_add-IsList malloc h' self ps xs x copied.list in
      let new = alloc_new h h' copied.kept in
      (
        after,
        self',
        rw run refl,
        record {
          list = list;
          unused = AreUnused-append h (malloc.alloc h') ps copied.unused new;
          kept = λ r found.
              others r (AreUnused-IsOutside h r ps found copied.unused)
                (λ e. found (ap (lookup h) e ∙ new))
              ∙ copied.kept r found;
        },
      )

pub IsCopied-empty : (h : Heap) → IsCopied h h list_create [] []
IsCopied-empty h = record {
  list = record { chain = stop refl; count = refl };
  unused = tt;
  kept = λ r found. refl;
}
