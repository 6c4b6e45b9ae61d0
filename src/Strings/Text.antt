-- ===== src/Strings/Text.antt =====
-- The other functions of fuse_ext2_commons/src/string.c. A string is the list of its bytes before
-- the NUL. The functions of ctype.h and string.h are those of the C locale.
pub mod Laws
pub mod Trim
use fuse_ext.Base.{
  ℕ, zero, suc, ◌+◌, ◌-◌, Bool, true, false, ◌&&◌, ◌||◌, ◌==◌, ltb, leb, if◌then◌else◌, List, [],
  ◌∷◌, ◌++◌, map, length, take, drop, get_or,
}

-- isblank, isspace
abbrev pub isblank : ℕ → Bool
isblank c = (c == b' ') || (c == 9)

abbrev pub isspace : ℕ → Bool
isspace c = (c == b' ') || (leb 9 c && leb c 13)

-- toupper, tolower
abbrev pub toupper : ℕ → ℕ
toupper c = if leb 97 c && leb c 122 then c - 32 else c

abbrev pub tolower : ℕ → ℕ
tolower c = if leb 65 c && leb c 90 then c + 32 else c

-- The loop writes `count` characters, which must not be NUL.
unfoldable pub string_repeat : ℕ → ℕ → List ℕ
string_repeat character zero = []
string_repeat character (suc count) = character ∷ string_repeat character count

unfoldable pub string_append : List ℕ → List ℕ → List ℕ
string_append original string_to_add = original ++ string_to_add

abbrev pub string_do : List ℕ → (ℕ → ℕ) → List ℕ
string_do text closure = map closure text

unfoldable pub string_to_upper : List ℕ → List ℕ
string_to_upper text = string_do text toupper

unfoldable pub string_to_lower : List ℕ → List ℕ
string_to_lower text = string_do text tolower

unfoldable pub string_is_empty : List ℕ → Bool
string_is_empty text = length text == 0

unfoldable pub string_capitalized : List ℕ → List ℕ
unfolding string_to_lower
string_capitalized [] = []
string_capitalized (c ∷ s) =
    if leb 2 (length (c ∷ s)) then toupper c ∷ string_to_lower s else toupper c ∷ s

unfoldable pub string_trim_left : List ℕ → List ℕ
string_trim_left [] = []
string_trim_left (c ∷ s) = if isblank c then string_trim_left s else c ∷ s

-- The `while`, where i is one less than the first argument.
unfoldable pub trim_right_loop : ℕ → List ℕ → List ℕ
trim_right_loop zero s = s
trim_right_loop (suc i) s = if isspace (get_or s i 0) then trim_right_loop i (take i s) else s

unfoldable pub string_trim_right : List ℕ → List ℕ
unfolding trim_right_loop
string_trim_right text = trim_right_loop (length text) text

unfoldable pub string_trim : List ℕ → List ℕ
unfolding string_trim_left string_trim_right
string_trim text = string_trim_right (string_trim_left text)

-- Whether strncmp gives 0 for the first n characters.
abbrev pub strncmp_eq : ℕ → List ℕ → List ℕ → Bool
strncmp_eq zero s t = true
strncmp_eq (suc n) [] [] = true
strncmp_eq (suc n) [] (d ∷ t) = false
strncmp_eq (suc n) (c ∷ s) [] = false
strncmp_eq (suc n) (c ∷ s) (d ∷ t) = (c == d) && strncmp_eq n s t

-- Whether strcmp gives 0.
abbrev pub strcmp_eq : List ℕ → List ℕ → Bool
strcmp_eq [] [] = true
strcmp_eq [] (d ∷ t) = false
strcmp_eq (c ∷ s) [] = false
strcmp_eq (c ∷ s) (d ∷ t) = (c == d) && strcmp_eq s t

-- Whether strcasecmp gives 0.
abbrev pub strcasecmp_eq : List ℕ → List ℕ → Bool
strcasecmp_eq [] [] = true
strcasecmp_eq [] (d ∷ t) = false
strcasecmp_eq (c ∷ s) [] = false
strcasecmp_eq (c ∷ s) (d ∷ t) = (tolower c == tolower d) && strcasecmp_eq s t

unfoldable pub string_starts_with : List ℕ → List ℕ → Bool
string_starts_with text begin = strncmp_eq (length begin) text begin

unfoldable pub string_ends_with : List ℕ → List ℕ → Bool
string_ends_with text end =
    if ltb (length text) (length end)
    then false
    else strcmp_eq (drop (length text - length end) text) end

unfoldable pub string_equals_ignore_case : List ℕ → List ℕ → Bool
string_equals_ignore_case actual expected = strcasecmp_eq actual expected

-- The closure acts on a state; the array ends at its NULL.
unfoldable pub string_iterate_lines {ℓ} : {S : Type ℓ} → List (List ℕ) → (List ℕ → S → S) → S → S
string_iterate_lines [] closure state = state
string_iterate_lines (line ∷ strings) closure state =
    string_iterate_lines strings closure (closure line state)
