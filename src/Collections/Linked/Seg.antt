-- ===== src/Collections/Linked/Seg.antt =====
-- A chain of cells as a list of data.
use fuse_ext.Base.{
  ℕ, ◌≡◌, ◌≢◌, sym, ap, ◌∙◌, ==_refl, ne→==, Option, none, some, List, [], ◌∷◌, length, Ptr, ok,
}
use fuse_ext.Collections.Linked.{Node, Heap, lookup, node_at, LinkedList}

abbrev pub IsOutside : Ptr → List Ptr → Type 0
IsOutside q [] = Unit {0}
IsOutside q (p ∷ ps) = (q ≢ p) × IsOutside q ps

-- The cells from an address to NULL, no two the same, and the data in them.
pub data Seg (h : Heap) : Ptr → List Ptr → List ℕ → Type 0 where
  stop : {p : Ptr} → p ≡ 0 → Seg h p [] []
  cell :
      {p : Ptr} {ps : List Ptr} {xs : List ℕ} (n : Node)
      → p ≢ 0
      → lookup h p ≡ some n
      → IsOutside p ps
      → Seg h n.next ps xs
      → Seg h p (p ∷ ps) (n.data_of ∷ xs)

-- A list holds the data, in their order, and counts them.
pub record IsList (h : Heap) (self : LinkedList) (ps : List Ptr) (xs : List ℕ) : Type 0 where
  pub chain : Seg h self.head ps xs
  pub count : self.elements_count ≡ length xs

pub lookup_same : (h : Heap) (q : Ptr) (c : Option Node) → lookup ((q, c) ∷ h) q ≡ c
lookup_same h q c = rw (==_refl q)

pub lookup_other :
    (h : Heap) (p q : Ptr) (c : Option Node) → p ≢ q → lookup ((q, c) ∷ h) p ≡ lookup h p
lookup_other h p q c h' = rw (ne→== p q h')

pub node_at_lem : (h : Heap) (p : Ptr) (n : Node) → p ≢ 0 → lookup h p ≡ some n → node_at h p ≡ ok n
node_at_lem h p n positive found = rw (ne→== p 0 positive, found)

-- A write elsewhere keeps the chain.
pub Seg-IsOutside :
    {h : Heap} {p : Ptr} {ps : List Ptr} {xs : List ℕ} (q : Ptr) (c : Option Node)
    → IsOutside q ps
    → Seg h p ps xs
    → Seg ((q, c) ∷ h) p ps xs
Seg-IsOutside q c out (stop e) = stop e
Seg-IsOutside {h} {p} q c out (cell n positive found distinct rest) =
    cell n positive (lookup_other h p q c (λ e. out.0 (sym e)) ∙ found) distinct
      (Seg-IsOutside q c out.1 rest)

-- A cell that is not in use is outside.
pub IsOutside-unused :
    {h : Heap} {p : Ptr} {ps : List Ptr} {xs : List ℕ} (q : Ptr)
    → lookup h q ≡ none
    → Seg h p ps xs
    → IsOutside q ps
IsOutside-unused q unused (stop e) = tt
IsOutside-unused {h} {p} q unused (cell n positive found distinct rest) = (
  λ e. let clash : lookup h p ≡ none = ap (lookup h) (sym e) ∙ unused in cc,
  IsOutside-unused q unused rest,
)
