-- ===== src/Strings/Text/Laws.antt =====
-- What the tests and the trimming of string.c mean.
use fuse_ext.Base.{
  ℕ, zero, suc, ◌-◌, ◌≤◌, ◌≡◌, ◌↔◌, refl, sym, ap, ◌∙◌, Bool, true, false, ◌&&◌, ◌==◌, ==_iff, ltb,
  List, [], ◌∷◌, ◌++◌, map, length, length-append, drop, arith, Bool-cases, inl, inr, le→ltb,
}
use fuse_ext.Strings.Text.{
  tolower, string_to_lower, strncmp_eq, strcmp_eq, string_starts_with, string_ends_with,
  string_equals_ignore_case,
}

and-both : (a b : Bool) → (a && b) ≡ true → (a ≡ true) × (b ≡ true)
and-both a b h = ground arith

both-and : (a b : Bool) → a ≡ true → b ≡ true → (a && b) ≡ true
both-and a b h k = ground arith

starts_with-prefix :
    (text begin : List ℕ)
    → strncmp_eq (length begin) text begin ≡ true
    → (rest : List ℕ) × (text ≡ begin ++ rest)
starts_with-prefix text [] h = (text, refl)
starts_with-prefix [] (d ∷ t) h = cc
starts_with-prefix (c ∷ s) (d ∷ t) h =
    let (first, others) = and-both (c == d) _ h in
    let (rest, e) = starts_with-prefix s t others in
    let same : c ≡ d = (==_iff c d).0 first in (rest, cc)

prefix-starts_with : (begin rest : List ℕ) → strncmp_eq (length begin) (begin ++ rest) begin ≡ true
prefix-starts_with [] rest = refl
prefix-starts_with (d ∷ t) rest =
    both-and (d == d) _ ((==_iff d d).1 refl) (prefix-starts_with t rest)

-- A text starts with another exactly when it is that one and a rest.
pub string_starts_with_iff :
    (text begin : List ℕ)
    → (string_starts_with text begin ≡ true) ↔ ((rest : List ℕ) × (text ≡ begin ++ rest))
unfolding string_starts_with
string_starts_with_iff text begin =
    (λ h. starts_with-prefix text begin h, λ (rest, e). rw e (prefix-starts_with begin rest))

strcmp_eq_iff : (s t : List ℕ) → (strcmp_eq s t ≡ true) ↔ (s ≡ t)
strcmp_eq_iff [] [] = (λ h. refl, λ e. refl)
strcmp_eq_iff [] (d ∷ t) = (λ h. cc, λ e. cc)
strcmp_eq_iff (c ∷ s) [] = (λ h. cc, λ e. cc)
strcmp_eq_iff (c ∷ s) (d ∷ t) = (
  λ h.
      let (first, others) = and-both (c == d) _ h in
      let head : c ≡ d = (==_iff c d).0 first in
      let tail : s ≡ t = (strcmp_eq_iff s t).0 others in cc,
  λ e.
      let head : c ≡ d = cc in
      let tail : s ≡ t = cc in
      both-and (c == d) _ ((==_iff c d).1 head) ((strcmp_eq_iff s t).1 tail),
)

split_at : (n : ℕ) (s : List ℕ) → n ≤ length s → (front : List ℕ) × (s ≡ front ++ drop n s)
split_at zero s h = ([], refl)
split_at (suc n) [] h = absurd (omega arith)
split_at (suc n) (c ∷ s) h =
    let (front, e) = split_at n s (omega arith) in (c ∷ front, ap (λ r. c ∷ r) e)

drop-append : (front s : List ℕ) → drop (length front) (front ++ s) ≡ s
drop-append [] s = refl
drop-append (c ∷ front) s = drop-append front s

-- A text ends with another exactly when it is some front and that one.
pub string_ends_with_iff :
    (text end : List ℕ)
    → (string_ends_with text end ≡ true) ↔ ((front : List ℕ) × (text ≡ front ++ end))
unfolding string_ends_with
string_ends_with_iff text end = (forward, backward)
  where
    forward : string_ends_with text end ≡ true → (front : List ℕ) × (text ≡ front ++ end)
    forward h = elim (Bool-cases (ltb (length text) (length end))) [
      | inl e ↦ let no : false ≡ true = rw e at h in cc
      | inr e ↦
          let n = length text - length end in
          let same : drop n text ≡ end = (strcmp_eq_iff (drop n text) end).0 (rw e at h) in
          let (front, at) = split_at n text (omega arith) in (front, at ∙ ap (λ s. front ++ s) same)
    ]

    backward : (front : List ℕ) × (text ≡ front ++ end) → string_ends_with text end ≡ true
    backward (front, e) =
        let sum = ap length e ∙ length-append front end in
        let n : length text - length end ≡ length front = omega arith in
        let back : drop (length front) text ≡ end =
          ap (drop (length front)) e ∙ drop-append front end in
        rw (le→ltb (length text) (length end) (omega arith), n)
          ((strcmp_eq_iff (drop (length front) text) end).1 back)

-- Two texts are equal ignoring case exactly when they are the same text in lower case.
pub string_equals_ignore_case_iff :
    (s t : List ℕ)
    → (string_equals_ignore_case s t ≡ true) ↔ (string_to_lower s ≡ string_to_lower t)
unfolding string_equals_ignore_case string_to_lower
string_equals_ignore_case_iff [] [] = (λ h. refl, λ e. refl)
string_equals_ignore_case_iff [] (d ∷ t) = (λ h. cc, λ e. cc)
string_equals_ignore_case_iff (c ∷ s) [] = (λ h. cc, λ e. cc)
string_equals_ignore_case_iff (c ∷ s) (d ∷ t) = (
  λ h.
      let (first, others) = and-both (tolower c == tolower d) _ h in
      let head : tolower c ≡ tolower d = (==_iff (tolower c) (tolower d)).0 first in
      let tail : map tolower s ≡ map tolower t = (string_equals_ignore_case_iff s t).0 others in cc,
  λ e.
      let head : tolower c ≡ tolower d = cc in
      let tail : map tolower s ≡ map tolower t = cc in
      both-and (tolower c == tolower d) _ ((==_iff (tolower c) (tolower d)).1 head)
        ((string_equals_ignore_case_iff s t).1 tail),
)

-- A text in other cases compares alike with every text.
pub string_equals_ignore_case_same :
    (s t name : List ℕ)
    → string_to_lower s ≡ string_to_lower t
    → string_equals_ignore_case s name ≡ string_equals_ignore_case t name
string_equals_ignore_case_same s t name same =
    let by_s = string_equals_ignore_case_iff s name in
    let by_t = string_equals_ignore_case_iff t name in
    elim (Bool-cases (string_equals_ignore_case t name)) [
      | inl hit ↦ by_s.1 (same ∙ by_t.0 hit) ∙ sym hit
      | inr miss ↦ elim (Bool-cases (string_equals_ignore_case s name)) [
        | inl hit ↦
            let also : string_equals_ignore_case t name ≡ true = by_t.1 (sym same ∙ by_s.0 hit) in
            cc
        | inr both ↦ both ∙ sym miss
      ]
    ]
