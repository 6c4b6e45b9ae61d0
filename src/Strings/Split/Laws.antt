-- ===== src/Strings/Split/Laws.antt =====
-- `string_split` against the fields of a text.
use fuse_ext.Base.{
  ℕ, zero, suc, ◌+◌, ◌≤◌, ◌<◌, ◌≡◌, refl, ap, ◌∙◌, false, if◌then◌else◌, none, some, List, [], ◌∷◌,
  ◌++◌, length, append_assoc, append-nil, ok, arith, Bool-cases, inl, inr, ◌⊎◌,
}
use fuse_ext.Strings.Split.{
  contains, skip_separators, span_token, strtok_r, split_loop, string_split,
}

-- The fields of a text: what stands between the separators, empty fields included.
abbrev pub extend_first : ℕ → List (List ℕ) → List (List ℕ)
extend_first c [] = (c ∷ []) ∷ []
extend_first c (f ∷ fs) = (c ∷ f) ∷ fs

unfoldable pub fields : List ℕ → List ℕ → List (List ℕ)
fields sep [] = [] ∷ []
fields sep (c ∷ s) = if contains sep c then [] ∷ fields sep s else extend_first c (fields sep s)

-- The fields that are not empty.
abbrev pub nonempty : List (List ℕ) → List (List ℕ)
nonempty [] = []
nonempty ([] ∷ fs) = nonempty fs
nonempty ((c ∷ f) ∷ fs) = (c ∷ f) ∷ nonempty fs

fields-skip :
    (sep s : List ℕ) → nonempty (fields sep s) ≡ nonempty (fields sep (skip_separators sep s))
unfolding fields skip_separators
fields-skip sep [] = refl
fields-skip sep (c ∷ s) = elim (Bool-cases (contains sep c)) [
  | inl e ↦ rw e (fields-skip sep s)
  | inr e ↦ rw e (rw e)
]

-- A token is the first field, and what is left holds the other fields.
fields-span :
    (sep s : List ℕ)
    → (fs : List (List ℕ)) × (fields sep s ≡ (span_token sep s).0 ∷ fs)
      × (nonempty fs ≡ nonempty (fields sep (span_token sep s).1))
unfolding fields span_token
fields-span sep [] = ([], refl, refl)
fields-span sep (c ∷ s) = elim (Bool-cases (contains sep c)) [
  | inl e ↦ rw e (fields sep s, refl, refl)
  | inr e ↦ rw e (let (fs, first, rest) = fields-span sep s in (fs, rw first, rest))
]

length-skip : (sep s : List ℕ) → length (skip_separators sep s) ≤ length s
unfolding skip_separators
length-skip sep [] = omega arith
length-skip sep (c ∷ s) = ground (arith, length-skip sep s)

length-span : (sep s : List ℕ) → length (span_token sep s).1 ≤ length s
unfolding span_token
length-span sep [] = omega arith
length-span sep (c ∷ s) = ground (arith, length-span sep s)

skip-head :
    (sep s : List ℕ) (c : ℕ) (r : List ℕ) → skip_separators sep s ≡ c ∷ r → contains sep c ≡ false
unfolding skip_separators
skip-head sep [] c r h = cc
skip-head sep (d ∷ s) c r h = elim (Bool-cases (contains sep d)) [
  | inl e ↦ skip-head sep s c r (rw e at h)
  | inr e ↦ ground (arith, (rw e at h))
]

-- One round of the loop, by what is left after the separators in front.
module _ (sep s : List ℕ) where
  round_none : skip_separators sep s ≡ [] → (strtok_r sep s ≡ none) × (nonempty (fields sep s) ≡ [])
  unfolding strtok_r fields
  round_none e = (rw (e, strtok_r), fields-skip sep s ∙ rw e)

  round_some :
      (c : ℕ) (r : List ℕ)
      → skip_separators sep s ≡ c ∷ r
      → (t : List ℕ × List ℕ) × (strtok_r sep s ≡ some t)
        × (nonempty (fields sep s) ≡ t.0 ∷ nonempty (fields sep t.1))
        × (length t.1 < length s)
  unfolding strtok_r fields span_token
  round_some c r e =
      let out = skip-head sep s c r e in
      let (fs, first, rest) = fields-span sep r in
      let short : length (span_token sep r).1 < length s =
        omega (arith, ap length e, length-skip sep s, length-span sep r) in
      (
        (c ∷ (span_token sep r).0, (span_token sep r).1),
        rw (e, strtok_r) (rw out),
        fields-skip sep s ∙ rw e (rw (out, first) (ap (λ l. (c ∷ (span_token sep r).0) ∷ l) rest)),
        short,
      )

List-cases : (l : List ℕ) → (l ≡ []) ⊎ ((c : ℕ) × (r : List ℕ) × (l ≡ c ∷ r))
List-cases [] = inl refl
List-cases (c ∷ r) = inr (c, r, refl)

split_loop-fields :
    (fuel : ℕ) (sep s : List ℕ) (acc : List (List ℕ))
    → length s < fuel
    → split_loop fuel sep s acc ≡ ok (acc ++ nonempty (fields sep s))
unfolding split_loop
split_loop-fields zero sep s acc h = absurd (omega arith)
split_loop-fields (suc fuel) sep s acc h = elim (List-cases (skip_separators sep s)) [
  | inl e ↦ let (stop, empty) = round_none sep s e in rw (stop, split_loop) (rw (empty, append-nil))
  | inr (c, r, e) ↦
      let (t, token, first, short) = round_some sep s c r e in
      rw (token, split_loop)
        (rw first (
          split_loop-fields fuel sep t.1 (acc ++ t.0 ∷ []) (omega arith)
          ∙ ap ok (append_assoc acc (t.0 ∷ []) (nonempty (fields sep t.1)))))
]

-- Splitting ends for every text, and its result is the fields of the text that are not empty, in
-- their order: separators at the ends and in a row make no empty substring.
pub string_split-fields :
    (text sep : List ℕ) → string_split text sep ≡ ok (nonempty (fields sep text))
unfolding string_split
string_split-fields text sep = split_loop-fields (length text + 1) sep text [] (omega arith)
