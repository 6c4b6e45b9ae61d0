-- ===== src/Temporal.antt =====
-- fuse_ext2_commons/src/temporal.c: the time of day as text. The clock and strftime belong to the C
-- library and come as a parameter; what error_show hands to vprintf is part of the result.
pub mod Laws
use fuse_ext.Base.{
  ℕ, ◌+◌, ltb, if◌then◌else◌, Option, none, some, List, [], ◌∷◌, ◌++◌, length, Outcome, ok, fault,
  ◌>>=◌,
}
use fuse_ext.Error.{error_show}
use fuse_ext.Log.{digits_loop}

-- What the C library answers: time(NULL), or `none` for -1; the text that strftime makes of a time
-- by "%H:%M:%S"; the field millitm that ftime fills in, or `none` when it fails.
pub record Clock : Type 0 where
  pub time : Option ℕ
  pub strftime : ℕ → List ℕ
  pub millitm : Option ℕ

-- "Error getting date!" and "Error getting time!"
abbrev pub no_date : List ℕ
no_date =
    b'E' ∷ b'r' ∷ b'r' ∷ b'o' ∷ b'r' ∷ b' ' ∷ b'g' ∷ b'e' ∷ b't' ∷ b't' ∷ b'i' ∷ b'n' ∷ b'g' ∷ b' '
    ∷ b'd' ∷ b'a' ∷ b't' ∷ b'e' ∷ b'!' ∷ []

abbrev pub no_time : List ℕ
no_time =
    b'E' ∷ b'r' ∷ b'r' ∷ b'o' ∷ b'r' ∷ b' ' ∷ b'g' ∷ b'e' ∷ b't' ∷ b't' ∷ b'i' ∷ b'n' ∷ b'g' ∷ b' '
    ∷ b't' ∷ b'i' ∷ b'm' ∷ b'e' ∷ b'!' ∷ []

-- The room that the two calls of strdup make, the NUL included.
abbrev pub str_time_room : ℕ
str_time_room = 14

abbrev pub partial_time_room : ℕ
partial_time_room = 9

-- The text of strftime, and then "%s:%hu": a text that does not fit its buffer is written past its
-- end.
unfoldable pub time_text : List ℕ → ℕ → Outcome (List ℕ)
time_text partial_time millitm =
    let str_time = partial_time ++ b':' ∷ digits_loop 5 millitm [] in
    if ltb (length partial_time) partial_time_room
    then (if ltb (length str_time) str_time_room then ok str_time else fault)
    else fault

-- What was handed to vprintf, and the text; NULL when the clock fails.
unfoldable pub temporal_get_string_time : Clock → Outcome (List ℕ × Option (List ℕ))
unfolding error_show time_text
temporal_get_string_time clock = elim clock.time [
  | none ↦ ok (error_show no_date, none)
  | some log_time ↦ elim clock.millitm [
    | none ↦ ok (error_show no_time, none)
    | some millitm ↦ do
      str_time ← time_text (clock.strftime log_time) millitm
      ok ([], some str_time)
  ]
]
