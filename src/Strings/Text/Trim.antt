-- ===== src/Strings/Text/Trim.antt =====
-- What `string_trim` removes.
use fuse_ext.Base.{
  ℕ, zero, suc, ◌≡◌, refl, sym, ap, ◌∙◌, Bool, true, false, List, [], ◌∷◌, ◌++◌, append_assoc,
  append-nil, length, length-append, length-take, take, get_or, arith, Bool-cases, inl, inr,
}
use fuse_ext.Strings.Text.{
  isblank, isspace, string_trim_left, trim_right_loop, string_trim_right, string_trim,
}

-- The test holds of every character.
abbrev pub Every : (ℕ → Bool) → List ℕ → Type 0
Every test [] = Unit {0}
Every test (c ∷ s) = (test c ≡ true) × Every test s

-- The text, with what is cut off in front and behind; what is left neither starts with a blank
-- nor ends with a space.
pub record IsTrimmed (text trimmed front back : List ℕ) : Type 0 where
  pub whole : text ≡ front ++ (trimmed ++ back)
  pub blanks : Every isblank front
  pub spaces : Every isspace back
  pub first : (c : ℕ) (s : List ℕ) → trimmed ≡ c ∷ s → isblank c ≡ false
  pub last : (s : List ℕ) (c : ℕ) → trimmed ≡ s ++ c ∷ [] → isspace c ≡ false

trim_left-front :
    (text : List ℕ)
    → (front : List ℕ) × (text ≡ front ++ string_trim_left text)
      × Every isblank front
      × ((c : ℕ) (s : List ℕ) → string_trim_left text ≡ c ∷ s → isblank c ≡ false)
unfolding string_trim_left
trim_left-front [] = ([], refl, tt, λ c s e. cc)
trim_left-front (d ∷ t) = elim (Bool-cases (isblank d)) [
  | inl e ↦
      let (front, whole, blanks, first) = trim_left-front t in
      rw e (d ∷ front, ap (λ r. d ∷ r) whole, (e, blanks), first)
  | inr e ↦ rw e ([], refl, tt, λ c s same. let head : d ≡ c = cc in sym (ap isblank head) ∙ e)
]

-- The text up to its last character, and that character.
take-last : (i : ℕ) (s : List ℕ) → length s ≡ suc i → s ≡ take i s ++ get_or s i 0 ∷ []
take-last i [] h = absurd (omega arith)
take-last zero (c ∷ []) h = refl
take-last zero (c ∷ d ∷ s) h = absurd (omega arith)
take-last (suc i) (c ∷ s) h = ap (λ r. c ∷ r) (take-last i s (omega arith))

last-append : (s : List ℕ) (c : ℕ) → get_or (s ++ c ∷ []) (length s) 0 ≡ c
last-append [] c = refl
last-append (d ∷ s) c = last-append s c

Every-append :
    (test : ℕ → Bool) (s : List ℕ) (c : ℕ) → Every test s → test c ≡ true → Every test (s ++ c ∷ [])
Every-append test [] c all h = (h, tt)
Every-append test (d ∷ s) c all h = (all.0, Every-append test s c all.1 h)

trim_right-back :
    (n : ℕ) (s : List ℕ)
    → length s ≡ n
    → (back : List ℕ) × (s ≡ trim_right_loop n s ++ back)
      × Every isspace back
      × ((t : List ℕ) (c : ℕ) → trim_right_loop n s ≡ t ++ c ∷ [] → isspace c ≡ false)
unfolding trim_right_loop
trim_right-back zero s h = (
  [],
  sym (append-nil s),
  tt,
  λ t c e. let sum = ap length e ∙ length-append t (c ∷ []) in absurd (omega arith),
)
trim_right-back (suc i) s h = elim (Bool-cases (isspace (get_or s i 0))) [
  | inl e ↦
      let short : length (take i s) ≡ i = length-take i s ∙ omega arith in
      let (back, whole, spaces, last) = trim_right-back i (take i s) short in
      let x = get_or s i 0 in
      rw e (
        back ++ x ∷ [],
        take-last i s h
            ∙ ap (λ r. r ++ x ∷ []) whole
            ∙ append_assoc (trim_right_loop i (take i s)) back (x ∷ []),
        Every-append isspace back x spaces e,
        last,
      )
  | inr e ↦ rw e (
    [],
    sym (append-nil s),
    tt,
    λ t c same.
        let sum = ap length same ∙ length-append t (c ∷ []) in
        let at : i ≡ length t = omega arith in
        let x : get_or s i 0 ≡ c =
          ap (λ r. get_or r i 0) same
          ∙ ap (λ (k : ℕ). get_or (t ++ c ∷ []) k 0) at
          ∙ last-append t c in
        sym (ap isspace x) ∙ e,
  )
]

-- Trimming cuts off blanks (space and tab) in front and spaces of all six kinds behind, and no more
-- can be cut off: what is left neither starts with a blank nor ends with a space.
pub string_trim-IsTrimmed :
    (text : List ℕ) → (front back : List ℕ) × IsTrimmed text (string_trim text) front back
unfolding string_trim string_trim_right
string_trim-IsTrimmed text =
    let left = string_trim_left text in
    let (front, at_left, blanks, first) = trim_left-front text in
    let (back, at_right, spaces, last) = trim_right-back (length left) left refl in
    (
      front,
      back,
      record {
        whole = at_left ∙ ap (λ r. front ++ r) at_right;
        blanks = blanks;
        spaces = spaces;
        first = λ c s e. first c (s ++ back) (at_right ∙ ap (λ r. r ++ back) e);
        last = last;
      },
    )
