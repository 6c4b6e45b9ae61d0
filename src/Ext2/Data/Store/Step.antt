-- ===== src/Ext2/Data/Store/Step.antt =====
-- One write on a store.
use fuse_ext.Base.{
  ℕ, ◌+◌, ◌*◌, ◌/◌, ◌%◌, ◌≤◌, ◌<◌, ◌≡◌, sym, ap, ap₂, ◌∙◌, true, Bool-cases, inl, inr, length, Ptr,
  Memory, arith, ok, same_quotient,
}
use native.Mathlib.Nat.{mul-div-le, div-add-mod, mod-lt}
use fuse_ext.Ext2.Layout.{inode_at}
use fuse_ext.Ext2.Geometry.{Fs}
use fuse_ext.Ext2.Resize.{Clusters}
use fuse_ext.Ext2.Data.{write_inode_data}
use fuse_ext.Ext2.Data.Read.{direct_block}
use fuse_ext.Ext2.Data.Same.{IsSame, same_block, same_size, same-IsDirect}
use fuse_ext.Ext2.Data.Write.{write_inode_data-IsWritten}
use fuse_ext.Ext2.Data.Write.Loop.{position, IsElsewhere}
use fuse_ext.Ext2.Data.Write.Stretch.{IsWritable}
use fuse_ext.Ext2.Data.Store.{IsLayout, Store, held, Write, is_inside, put, IsInside}

module _ {m : Memory} {self : Fs} {F : Ptr → Type 0} (layout : IsLayout m self F) where
  -- Any stretch inside a file can be written.
  layout-IsWritable :
      (p : Ptr) (offset end : ℕ) → F p → end ≤ (inode_at m p).size → IsWritable m self p offset end
  layout-IsWritable p offset end f inside = record {
    pos = layout.pos;
    direct = λ b below. layout.direct p f b (omega arith);
    apart = λ b c hb hc same. (layout.apart p p b c f f (omega arith) (omega arith) same).1;
    clear = λ a at k lo hi. layout.clear p p a f f at k (omega arith) (omega arith);
  }

  -- The block of a byte of a file is one of the file's direct blocks.
  block_inside :
      (p : Ptr) (k : ℕ)
      → k < (inode_at m p).size
      → k / self.block_size * self.block_size < (inode_at m p).size
  block_inside p k h = omega (arith, mul-div-le k self.block_size)

  -- Bytes of files at the same address are the same byte.
  same_position :
      (p q : Ptr) (k l : ℕ)
      → F p
      → F q
      → k < (inode_at m p).size
      → l < (inode_at m q).size
      → position self.block_size (direct_block m self p) k
        ≡ position self.block_size (direct_block m self q) l
      → (p ≡ q) × (k ≡ l)
  same_position p q k l f g hk hl same =
      let bs = self.block_size in
      let x : ℕ = (inode_at m p).block (k / bs) in
      let y : ℕ = (inode_at m q).block (l / bs) in
      let offsets : x * bs + k % bs ≡ y * bs + l % bs = omega arith in
      let (blocks, rests) =
        same_quotient x y (k % bs) (l % bs) bs (mod-lt k layout.pos) (mod-lt l layout.pos)
          offsets in
      let (files, quotients) =
        layout.apart p q (k / bs) (l / bs) f g (block_inside p k hk) (block_inside q l hl) blocks in
      (
        files,
        sym (div-add-mod k bs) ∙ ap₂ (λ (t r : ℕ). bs * t + r) quotients rests ∙ div-add-mod l bs,
      )

  module _ {other : Memory} (same : (p : Ptr) → F p → IsSame m other self p) where
    pub position_kept :
        (p : Ptr) (k : ℕ)
        → F p
        → k < (inode_at m p).size
        → position self.block_size (direct_block other self p) k
          ≡ position self.block_size (direct_block m self p) k
    position_kept p k f h =
        let few = (layout.direct p f (k / self.block_size) (block_inside p k h)).0 in
        ap (λ (n : ℕ). self.device + n * self.block_size + k % self.block_size)
          (same_block (same p f) (k / self.block_size) few)

    layout_kept : IsLayout other self F
    layout_kept = record {
      pos = layout.pos;
      direct = λ p f.
          rw (same_size (same p f))
            (same-IsDirect (same p f) (inode_at m p).size (layout.direct p f));
      apart = λ p q b c f g hb hc e.
          let hb' : b * self.block_size < (inode_at m p).size = rw (← same_size (same p f)) hb in
          let hc' : c * self.block_size < (inode_at m q).size = rw (← same_size (same q g)) hc in
          let p_block = same_block (same p f) b (layout.direct p f b hb').0 in
          let q_block = same_block (same q g) c (layout.direct q g c hc').0 in
          layout.apart p q b c f g hb' hc' (sym p_block ∙ e ∙ q_block);
      clear = λ p q a f g at k lo hi e.
          let hi' : k < (inode_at m p).size = rw (← same_size (same p f)) hi in
          layout.clear p q a f g at k lo hi' (e ∙ position_kept p k f hi');
    }

is_inside-true :
    (w : Write) (p : Ptr) (k : ℕ)
    → is_inside w p k ≡ true
    → (p ≡ w.file) × (w.offset ≤ k) × (k < w.offset + length w.buff)
is_inside-true w p k h = ground arith

true-is_inside :
    (w : Write) (p : Ptr) (k : ℕ)
    → p ≡ w.file
    → w.offset ≤ k
    → k < w.offset + length w.buff
    → is_inside w p k ≡ true
true-is_inside w p k e lo hi = ground arith

-- The memory holds at least what the store says of the files.
abbrev pub Holds : Memory → Fs → (Ptr → Type 0) → Store → Type 0
Holds m self F store =
    (p : Ptr) (k : ℕ) → F p → k < (inode_at m p).size → held m self p k ≡ store p k

module _ (clusters : Clusters) {m : Memory} {self : Fs} {F : Ptr → Type 0}
    (layout : IsLayout m self F) (w : Write) (valid : IsInside m F w) where
  -- A write puts its bytes into the store, and leaves the layout, the sizes and all else.
  pub write-Holds :
      (store : Store)
      → Holds m self F store
      → (after : Memory) × (write_inode_data clusters m self w.file w.buff w.offset ≡ ok after)
        × ((p : Ptr) → F p → (inode_at after p).size ≡ (inode_at m p).size)
        × IsLayout after self F
        × Holds after self F (put store w)
        × ((p : Ptr) → F p → IsSame m after self p)
        × ((a : Ptr)
            → IsElsewhere self.block_size (direct_block m self w.file) 0 (inode_at m w.file).size a
            → after a ≡ m a)
  write-Holds store holds =
      let end = w.offset + length w.buff in
      let bs = self.block_size in
      let (after, run, written) =
        write_inode_data-IsWritten clusters m self w.file w.buff w.offset
          (layout-IsWritable layout w.file w.offset end valid.0 valid.2) valid.1 valid.2 in
      let same : (p : Ptr) → F p → IsSame m after self p = λ p f. record {
        superblock = λ i h. written.elsewhere _ (λ k lo hi.
            layout.clear w.file p _ valid.0 f (inl (omega arith, omega arith)) k (omega arith)
              (omega (arith, valid.2)));
        of_inode = λ i h. written.elsewhere _ (λ k lo hi.
            layout.clear w.file p _ valid.0 f (inr (omega arith, omega arith)) k (omega arith)
              (omega (arith, valid.2)));
      } in
      (
        after,
        run,
        λ p f. same_size (same p f),
        layout_kept layout same,
        λ p k f h.
            let h' : k < (inode_at m p).size = rw (← same_size (same p f)) h in
            ap after (position_kept layout same p k f h') ∙ elim (Bool-cases (is_inside w p k)) [
              | inl e ↦
                  let (at, lo, hi) = is_inside-true w p k e in
                  rw e (
                    ap (λ (q : Ptr). after (position bs (direct_block m self q) k)) at
                    ∙ written.inside k lo hi)
              | inr e ↦
                  let apart : IsElsewhere bs (direct_block m self w.file) w.offset end
                      (position bs (direct_block m self p) k) =
                    λ l lo hi there.
                      let (files, bytes) =
                        same_position layout p w.file k l f valid.0 h' (omega (arith, valid.2))
                          there in
                      let clash : is_inside w p k ≡ true =
                        true-is_inside w p k files (omega arith) (omega arith) in
                      cc in
                  rw e (written.elsewhere _ apart ∙ holds p k f h')
            ],
        same,
        λ a out. written.elsewhere a (λ k lo hi. out k (omega arith) (omega (arith, valid.2))),
      )
