-- ===== src/Tests/Texts.antt =====
-- The theorems on texts and on the log at small texts.
use fuse_ext.Base.{ℕ, ◌≡◌, if◌then◌else◌, some, refl, true, none, List, [], ◌∷◌, ◌++◌, ok, arith}
use fuse_ext.Strings.Text.{string_trim}
use fuse_ext.Strings.Text.Trim.{IsTrimmed, string_trim-IsTrimmed}
use fuse_ext.Log.{
  Log, debug, error, log_level_as_string, log_write_in_level, Written, is_enable_level_in_logger,
  write_line, line,
}
use fuse_ext.Log.Lines.{log_write_in_level-fits}
use fuse_ext.Temporal.{Clock, temporal_get_string_time}

abbrev text : List ℕ
text = b' ' ∷ b'a' ∷ b'b' ∷ b'\n' ∷ []

trim_run : string_trim text ≡ b'a' ∷ b'b' ∷ []
unfolding string_trim
trim_run = refl

trim_example : (front back : List ℕ) × IsTrimmed text (string_trim text) front back
trim_example = string_trim-IsTrimmed text

abbrev logger : Log
logger = record {
  file = none;
  is_active_console = true;
  detail = debug;
  program_name = b'x' ∷ [];
  pid = 42;
}

abbrev out : Written
out = record { in_file = []; on_console = [] }

error_run :
    log_write_in_level logger error (b't' ∷ []) 7 (b'm' ∷ []) out
    ≡ ok (record out {
      on_console =
          b'[' ∷ b'D' ∷ b'E' ∷ b'B' ∷ b'U' ∷ b'G' ∷ b']' ∷ b' ' ∷ b't' ∷ b' ' ∷ b'x' ∷ b'/' ∷ b'('
          ∷ b'4' ∷ b'2' ∷ b':' ∷ b'7' ∷ b')' ∷ b':' ∷ b' ' ∷ b'm' ∷ b'\n' ∷ [];
    })
unfolding log_write_in_level
error_run = refl

abbrev noon : List ℕ
noon = b'1' ∷ b'2' ∷ b':' ∷ b'0' ∷ b'0' ∷ b':' ∷ b'0' ∷ b'0' ∷ []

abbrev clock : Clock
clock = record { time = some 1; strftime = λ t. noon; millitm = some 7 }

time_run : temporal_get_string_time clock ≡ ok ([], some (noon ++ b':' ∷ b'7' ∷ []))
unfolding temporal_get_string_time
time_run = refl

some-injective : {a b : ℕ} → some a ≡ some b → a ≡ b
some-injective h = cc

fits_example :
    (name : List ℕ) × (log_level_as_string debug ≡ ok name)
    × (log_write_in_level logger error noon 7 (b'm' ∷ []) out
        ≡ ok (
            if is_enable_level_in_logger logger error
            then write_line logger (line name logger noon 7 (b'm' ∷ [])) out
            else out))
fits_example =
    log_write_in_level-fits logger error noon 7 (b'm' ∷ []) out (omega arith) (omega arith)
      (omega arith)
