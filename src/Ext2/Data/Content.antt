-- ===== src/Ext2/Data/Content.antt =====
-- The bytes of a file as one sequence, over the addresses of its blocks.
use fuse_ext.Base.{
  ℕ, zero, suc, ◌+◌, ◌*◌, ◌/◌, ◌%◌, ◌≤◌, ◌<◌, ◌≡◌, refl, ap, ap₂, ◌∙◌, some, List, [], ◌∷◌, ◌++◌,
  get_elem?, get_or, sym, length, Ptr, Memory, bytes_at, arith, split_index, append_assoc,
}

-- Byte k of the file lies in block k / block_size.
abbrev pub content : Memory → ℕ → (ℕ → Ptr) → ℕ → ℕ
content m bs addr k = m (addr (k / bs) + k % bs)

-- The bytes from `k` on.
abbrev pub contents : Memory → ℕ → (ℕ → Ptr) → ℕ → ℕ → List ℕ
contents m bs addr k zero = []
contents m bs addr k (suc n) = content m bs addr k ∷ contents m bs addr (k + 1) n

module _ (m : Memory) (bs : ℕ) (addr : ℕ → Ptr) where
  pub length-contents : (k n : ℕ) → length (contents m bs addr k n) ≡ n
  length-contents k zero = refl
  length-contents k (suc n) = ap suc (length-contents (k + 1) n)

  pub get_elem?-contents :
      (k n i : ℕ) → i < n → get_elem? (contents m bs addr k n) i ≡ some (content m bs addr (k + i))
  get_elem?-contents k zero i h = absurd (omega arith)
  get_elem?-contents k (suc n) zero h = ap (λ (t : ℕ). some (content m bs addr t)) (omega arith)
  get_elem?-contents k (suc n) (suc i) h =
      get_elem?-contents (k + 1) n i (omega arith)
      ∙ ap (λ (t : ℕ). some (content m bs addr t)) (omega arith)

  pub contents-append :
      (k n l : ℕ)
      → contents m bs addr k n ++ contents m bs addr (k + n) l ≡ contents m bs addr k (n + l)
  contents-append k zero l = ap₂ (λ (t u : ℕ). contents m bs addr t u) (omega arith) (omega arith)
  contents-append k (suc n) l =
      let e : suc n + l ≡ suc (n + l) = omega arith in
      let f : k + suc n ≡ k + 1 + n = omega arith in
      rw (e, f) (ap (λ t. content m bs addr k ∷ t) (contents-append (k + 1) n l))

  -- A stretch of one block is a stretch of the file.
  pub bytes_at-contents :
      (b o n : ℕ) → o + n ≤ bs → bytes_at m (addr b + o) n ≡ contents m bs addr (b * bs + o) n
  bytes_at-contents b o zero fits = refl
  bytes_at-contents b o (suc n) fits =
      let (q, r) = split_index b o bs (omega arith) in
      let e : addr b + o + 1 ≡ addr b + (o + 1) = omega arith in
      let f : b * bs + o + 1 ≡ b * bs + (o + 1) = omega arith in
      rw (q, r, e, f) (ap (λ t. m (addr b + o) ∷ t) (bytes_at-contents b (o + 1) n (omega arith)))

  -- One more stretch behind what is copied so far.
  pub contents_next :
      (buff bytes : List ℕ) (k n l k' s : ℕ)
      → bytes ≡ contents m bs addr k n
      → k' ≡ k + n
      → n + l ≡ s
      → (buff ++ bytes) ++ contents m bs addr k' l ≡ buff ++ contents m bs addr k s
  contents_next buff bytes k n l k' s is at total =
      append_assoc buff bytes (contents m bs addr k' l)
      ∙ ap (λ t. buff ++ t) (rw (is, at, ← total) (contents-append k n l))

  pub contents-eq :
      (xs : List ℕ) (k : ℕ)
      → ((i : ℕ) → i < length xs → content m bs addr (k + i) ≡ get_or xs i 0)
      → contents m bs addr k (length xs) ≡ xs
  contents-eq [] k same = refl
  contents-eq (x ∷ xs) k same =
      let e : k + 0 ≡ k = omega arith in
      ap₂ ◌∷◌ (ap (content m bs addr) (sym e) ∙ same 0 (omega arith)) (
        contents-eq xs (k + 1) λ i h.
          let f : k + 1 + i ≡ k + suc i = omega arith in
          ap (content m bs addr) f ∙ same (suc i) (omega arith))
