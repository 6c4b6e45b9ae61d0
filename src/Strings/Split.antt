-- ===== src/Strings/Split.antt =====
-- `string_split` of string.c, and of the C library the parts that it calls (`strtok_r`).
pub mod Laws
use fuse_ext.Base.{
  ℕ, zero, suc, ◌+◌, Bool, true, false, ◌||◌, ◌==◌, if◌then◌else◌, Option, none, some, List, [],
  ◌∷◌, ◌++◌, length, Outcome, ok, out_of_fuel,
}

abbrev pub contains : List ℕ → ℕ → Bool
contains [] c = false
contains (d ∷ ds) c = (d == c) || contains ds c

-- The start of `strtok_r`: the separators in front are skipped.
unfoldable pub skip_separators : List ℕ → List ℕ → List ℕ
skip_separators sep [] = []
skip_separators sep (c ∷ s) = if contains sep c then skip_separators sep s else c ∷ s

-- The token up to the next separator, and the text behind that separator.
unfoldable pub span_token : List ℕ → List ℕ → List ℕ × List ℕ
span_token sep [] = ([], [])
span_token sep (c ∷ s) =
    if contains sep c then ([], s) else (let r = span_token sep s in (c ∷ r.0, r.1))

-- `strtok_r`: a token and the saved position, or NULL.
unfoldable pub strtok_r : List ℕ → List ℕ → Option (List ℕ × List ℕ)
unfolding skip_separators span_token
strtok_r sep s = elim (skip_separators sep s) [ [] ↦ none | c ∷ r ↦ some (span_token sep (c ∷ r)) ]

unfoldable pub split_loop : ℕ → List ℕ → List ℕ → List (List ℕ) → Outcome (List (List ℕ))
split_loop zero sep next substrings = out_of_fuel
split_loop (suc fuel) sep next substrings = elim (strtok_r sep next) [
  | none ↦ ok substrings
  | some t ↦ split_loop fuel sep t.1 (substrings ++ t.0 ∷ [])
]

-- The result is the array up to the NULL that ends it.
unfoldable pub string_split : List ℕ → List ℕ → Outcome (List (List ℕ))
unfolding split_loop strtok_r
string_split text separator = split_loop (length text + 1) separator text []
