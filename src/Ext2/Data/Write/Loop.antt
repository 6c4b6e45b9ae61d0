-- ===== src/Ext2/Data/Write/Loop.antt =====
-- The copying loop of a write: one round, and all rounds.
use fuse_ext.Base.{
  ℕ, zero, suc, ◌+◌, ◌-◌, ◌*◌, ◌/◌, ◌%◌, ◌≤◌, ◌<◌, ◌≡◌, ◌≢◌, ◌⊎◌, ap, subst, ◌∙◌, ltb, List, length,
  get_or, take, drop, get_or-drop, get_or-take, length-take, length-drop, Ptr, Memory, copy_in,
  copy_in_inside, copy_in_outside, arith, ok, Bool-cases, inl, inr, ltb→lt, ltb→le, split_index,
}
use fuse_ext.Ext2.Geometry.{Fs}
use fuse_ext.Ext2.Data.{data_block, next_size, write_loop}
use fuse_ext.Ext2.Data.Read.{IsRound, next-IsRound}

-- The address of byte k of a file.
abbrev pub position : ℕ → (ℕ → Ptr) → ℕ → Ptr
position bs addr k = addr (k / bs) + k % bs

-- No byte of the file from `from` up to `end` lies at the address.
abbrev pub IsElsewhere : ℕ → (ℕ → Ptr) → ℕ → ℕ → Ptr → Type 0
IsElsewhere bs addr from end a = (k : ℕ) → from ≤ k → k < end → a ≢ position bs addr k

-- `after` is `before` with the bytes `from` up to `end` of the file taken from the buffer, whose
-- first byte is byte `offset` of the file.
pub record IsWritten (bs : ℕ) (addr : ℕ → Ptr) (buff : List ℕ) (offset from end : ℕ)
    (before after : Memory) : Type 0 where
  pub inside :
      (k : ℕ) → from ≤ k → k < end → after (position bs addr k) ≡ get_or buff (k - offset) 0
  pub elsewhere : (a : Ptr) → IsElsewhere bs addr from end a → after a ≡ before a

module _ (bs : ℕ) (addr : ℕ → Ptr) (buff : List ℕ) (offset end : ℕ)
    (distinct : (k l : ℕ)
      → offset ≤ k
      → k < end
      → offset ≤ l
      → l < end
      → position bs addr k ≡ position bs addr l
      → k ≡ l) where
  -- Two stretches, one behind the other.
  IsWritten-trans :
      {from mid : ℕ} {m m1 m2 : Memory}
      → offset ≤ from
      → from ≤ mid
      → mid ≤ end
      → IsWritten bs addr buff offset from mid m m1
      → IsWritten bs addr buff offset mid end m1 m2
      → IsWritten bs addr buff offset from end m m2
  IsWritten-trans {from} {mid} lo ordered hi first rest = record {
    inside = λ k p q. elim (Bool-cases (ltb k mid)) [
      | inl e ↦
          let early = ltb→lt k mid e in
          rest.elsewhere (position bs addr k) (λ l a b same.
            let eq = distinct k l (omega arith) q (omega arith) b same in absurd (omega arith))
          ∙ first.inside k p early
      | inr e ↦ rest.inside k (ltb→le k mid e) q
    ];
    elsewhere = λ a out.
        rest.elsewhere a (λ k p q. out k (omega arith) q)
        ∙ first.elsewhere a (λ k p q. out k p (omega arith));
  }

-- Where the bytes of a round lie.
position-round :
    (bs : ℕ) (addr : ℕ → Ptr) {offset size copied b o n : ℕ} (i : ℕ)
    → IsRound bs offset size copied b o n
    → i < n
    → position bs addr (offset + copied + i) ≡ addr b + o + i
position-round bs addr {offset} {copied} {b} {o} i r h =
    let e : offset + copied + i ≡ b * bs + (o + i) = omega (arith, r.at) in
    let (quotient, rest) = split_index b (o + i) bs (omega (arith, r.inside)) in
    rw (e, quotient, rest) (omega arith)

-- An address that no byte of the round has lies outside the copied bytes.
outside_round :
    (bs : ℕ) (addr : ℕ → Ptr) {offset size copied b o n : ℕ} (a : Ptr)
    → IsRound bs offset size copied b o n
    → IsElsewhere bs addr (offset + copied) (offset + copied + n) a
    → (a < addr b + o) ⊎ (addr b + o + n ≤ a)
outside_round bs addr {offset} {copied} {b} {o} {n} a r out =
    elim (Bool-cases (ltb a (addr b + o))) [
      | inl e ↦ inl (ltb→lt a (addr b + o) e)
      | inr e ↦ elim (Bool-cases (ltb a (addr b + o + n))) [
        | inl f ↦
            let lo = ltb→le a (addr b + o) e in
            let hi = ltb→lt a (addr b + o + n) f in
            let i = a - (addr b + o) in
            let at = position-round bs addr i r (omega arith) in
            absurd (out (offset + copied + i) (omega arith) (omega arith) (omega arith))
        | inr f ↦ inr (ltb→le a (addr b + o + n) f)
      ]
    ]

-- One round.
round-IsWritten :
    (bs : ℕ) (addr : ℕ → Ptr) (buff : List ℕ) (offset : ℕ) (m : Memory) {copied b o n : ℕ}
    → IsRound bs offset (length buff) copied b o n
    → IsWritten bs addr buff offset
        (offset + copied)
        (offset + copied + n)
        m
        (copy_in m (addr b + o) (take n (drop copied buff)))
round-IsWritten bs addr buff offset m {copied} {b} {o} {n} r = record {
  inside = λ k p q.
      let i = k - (offset + copied) in
      let e : k ≡ offset + copied + i = omega arith in
      let at = position-round bs addr i r (omega arith) in
      let fits : i < length piece = omega (arith, long) in
      let spot : copied + i ≡ k - offset = omega arith in
      ap (λ (t : ℕ). copy_in m (addr b + o) piece (position bs addr t)) e
      ∙ ap (copy_in m (addr b + o) piece) at
      ∙ copy_in_inside m (addr b + o) piece i fits
      ∙ get_or-take (drop copied buff) n i 0 (omega arith)
      ∙ get_or-drop buff copied i 0
      ∙ ap (λ (t : ℕ). get_or buff t 0) spot;
  elsewhere =
      λ a out. copy_in_outside m (addr b + o) piece a (rw long (outside_round bs addr a r out));
}
  where
    piece : List ℕ
    piece = take n (drop copied buff)

    long : length piece ≡ n
    long = omega (arith, length-take n (drop copied buff), length-drop copied buff, r.wanted)

module _ (m0 : Memory) (self : Fs) (inode : Ptr) (addr : ℕ → Ptr) (buff : List ℕ) (offset : ℕ)
    (pos : 0 < self.block_size)
    (distinct : (k l : ℕ)
      → offset ≤ k
      → k < offset + length buff
      → offset ≤ l
      → l < offset + length buff
      → position self.block_size addr k ≡ position self.block_size addr l
      → k ≡ l)
    (stable : (m : Memory) (b : ℕ)
      → ((a : Ptr) → IsElsewhere self.block_size addr offset (offset + length buff) a → m a ≡ m0 a)
      → offset < b * self.block_size + self.block_size
      → b * self.block_size < offset + length buff
      → data_block m self inode b ≡ ok (addr b)) where
  -- The memory differs from the first one at most where bytes are to be written.
  abbrev IsSame : Memory → Type 0
  IsSame m =
      (a : Ptr) → IsElsewhere self.block_size addr offset (offset + length buff) a → m a ≡ m0 a

  pub write_loop-IsWritten :
      (fuel : ℕ) (m : Memory) (b copied o n : ℕ)
      → IsRound self.block_size offset (length buff) copied b o n
      → length buff < copied + fuel
      → IsSame m
      → (after : Memory) × (write_loop self inode buff fuel m b copied (addr b + o) n ≡ ok after)
        × IsWritten self.block_size addr buff offset
            (offset + copied)
            (offset + length buff)
            m
            after
  unfolding write_loop
  write_loop-IsWritten zero m b copied o n r enough same = absurd (let h = r.wanted in omega arith)
  write_loop-IsWritten (suc fuel) m b copied o n r enough same =
      let m' = copy_in m (addr b + o) (take n (drop copied buff)) in
      let now = round-IsWritten self.block_size addr buff offset m r in
      let w = r.wanted in
      elim (Bool-cases (ltb (copied + n) (length buff))) [
        | inl e ↦
            let more = ltb→lt (copied + n) (length buff) e in
            let full = r.full more in
            let at = r.at in
            let same' : IsSame m' =
              λ a out. now.elsewhere a (λ k p q. out k (omega arith) (omega arith)) ∙ same a out in
            let found = stable m' (b + 1) same' (omega arith) (omega arith) in
            let (after, run, rest) =
              write_loop-IsWritten fuel m' (b + 1) (copied + n) 0
                (next_size self (copied + n) (length buff)) (next-IsRound self pos r more)
                (omega (arith, r.some_bytes)) same' in
            let again = λ (t : Ptr).
              write_loop self inode buff fuel m' (b + 1) (copied + n) t
                (next_size self (copied + n) (length buff)) in
            let start : addr (b + 1) ≡ addr (b + 1) + 0 = omega arith in
            let behind : offset + (copied + n) ≡ offset + copied + n = omega arith in
            (
              after,
              rw e (rw found (ap again start ∙ run)),
              IsWritten-trans self.block_size addr buff offset (offset + length buff) distinct
                  (omega arith) (omega arith) (omega arith) now
                  (subst
                    (λ t.
                      IsWritten self.block_size addr buff offset t (offset + length buff) m' after)
                    behind rest),
            )
        | inr e ↦
            let less = ltb→le (copied + n) (length buff) e in
            let last : offset + copied + n ≡ offset + length buff = omega arith in
            (
              m',
              rw e,
              subst (λ t. IsWritten self.block_size addr buff offset (offset + copied) t m m') last
                  now,
            )
      ]
