-- ===== src/Log.antt =====
-- fuse_ext2_commons/src/log.c and log.h: a logger writes lines to a file, to the console, or to both.
-- What has been written so far is the state. The time, the identifier of the thread and the message
-- after vsprintf come with the call.
pub mod Laws
pub mod Lines
use fuse_ext.Base.{
  ℕ, zero, suc, ◌+◌, ◌-◌, ◌/◌, ◌%◌, ◌^◌, Bool, ltb, leb, if◌then◌else◌, Option, none, some, List,
  [], ◌∷◌, ◌++◌, length, get_elem?, Outcome, ok, fault, ◌>>=◌, deref,
}
use fuse_ext.Base.Int.{ℤ, pos, negsuc}
use fuse_ext.Strings.Text.{string_equals_ignore_case}

-- t_log_level
pub data LogLevel : Type 0 where
  trace debug info warning error : LogLevel

abbrev pub index_of : LogLevel → ℕ
index_of trace = 0
index_of debug = 1
index_of info = 2
index_of warning = 3
index_of error = 4

abbrev pub enum_names : List (List ℕ)
enum_names =
    (b'T' ∷ b'R' ∷ b'A' ∷ b'C' ∷ b'E' ∷ [])
    ∷ (b'D' ∷ b'E' ∷ b'B' ∷ b'U' ∷ b'G' ∷ [])
    ∷ (b'I' ∷ b'N' ∷ b'F' ∷ b'O' ∷ [])
    ∷ (b'W' ∷ b'A' ∷ b'R' ∷ b'N' ∷ b'I' ∷ b'N' ∷ b'G' ∷ [])
    ∷ (b'E' ∷ b'R' ∷ b'R' ∷ b'O' ∷ b'R' ∷ [])
    ∷ []

-- t_log. `file` is NULL when there is none.
pub record Log : Type 0 where
  pub file : Option ℕ
  pub is_active_console : Bool
  pub detail : LogLevel
  pub program_name : List ℕ
  pub pid : ℕ

-- The name of the file and what fopen gives for it; NULL for a logger without a file. The result is
-- NULL when the file cannot be opened.
unfoldable pub log_create : Option (Option ℕ) → List ℕ → Bool → LogLevel → ℕ → Option Log
log_create none program_name is_active_console detail pid = some (record {
  file = none;
  is_active_console = is_active_console;
  detail = detail;
  program_name = program_name;
  pid = pid;
})
log_create (some none) program_name is_active_console detail pid = none
log_create (some (some file_opened)) program_name is_active_console detail pid = some (record {
  file = some file_opened;
  is_active_console = is_active_console;
  detail = detail;
  program_name = program_name;
  pid = pid;
})

-- The file that is closed: fclose(NULL) is a fault.
unfoldable pub log_destroy : Log → Outcome ℕ
log_destroy logger = deref logger.file

unfoldable pub log_level_as_string : LogLevel → Outcome (List ℕ)
log_level_as_string level = deref (get_elem? enum_names (index_of level))

-- The `for` over the names, from i on.
unfoldable pub names_loop : List (List ℕ) → ℕ → List ℕ → ℤ
names_loop [] i level = negsuc 0
names_loop (name ∷ names) i level =
    if string_equals_ignore_case level name then pos i else names_loop names (i + 1) level

unfoldable pub log_level_from_string : List ℕ → ℤ
unfolding names_loop
log_level_from_string level = names_loop enum_names 0 level

unfoldable pub is_enable_level_in_logger : Log → LogLevel → Bool
is_enable_level_in_logger logger level = leb (index_of logger.detail) (index_of level)

-- LOG_MAX_LENGTH_MESSAGE and LOG_MAX_LENGTH_BUFFER
abbrev pub max_length_message : ℕ
max_length_message = 1024

abbrev pub max_length_buffer : ℕ
max_length_buffer = max_length_message + 100

-- `%d` of an unsigned value
abbrev pub digits_loop : ℕ → ℕ → List ℕ → List ℕ
digits_loop zero n acc = acc
digits_loop (suc fuel) n acc =
    if ltb n 10 then (b'0' + n) ∷ acc else digits_loop fuel (n / 10) ((b'0' + n % 10) ∷ acc)

abbrev pub decimal : ℕ → List ℕ
decimal n = if ltb n (2 ^ 31) then digits_loop 10 n [] else b'-' ∷ digits_loop 10 (2 ^ 32 - n) []

-- The line that sprintf makes, with the name of a level.
abbrev pub line : List ℕ → Log → List ℕ → ℕ → List ℕ → List ℕ
line name logger time thread_id message =
    (b'[' ∷ name)
    ++ (b']' ∷ b' ' ∷ time)
    ++ (b' ' ∷ logger.program_name)
    ++ (b'/' ∷ b'(' ∷ decimal logger.pid)
    ++ (b':' ∷ decimal thread_id)
    ++ (b')' ∷ b':' ∷ b' ' ∷ message)
    ++ b'\n' ∷ []

-- What stands in the file and on the console.
pub record Written : Type 0 where
  pub in_file : List ℕ
  pub on_console : List ℕ

abbrev pub write_line : Log → List ℕ → Written → Written
write_line logger buffer out = record {
  in_file = elim logger.file [ none ↦ out.in_file | some f ↦ out.in_file ++ buffer ];
  on_console = if logger.is_active_console then out.on_console ++ buffer else out.on_console;
}

-- A message or a line that does not fit its buffer is written past its end. The name in the line is
-- that of the detail of the logger.
unfoldable pub log_write_in_level : Log → LogLevel → List ℕ → ℕ → List ℕ → Written → Outcome Written
unfolding is_enable_level_in_logger log_level_as_string
log_write_in_level logger level time thread_id message out =
    if is_enable_level_in_logger logger level
    then (if ltb max_length_message (length message) then fault else (do
      name ← log_level_as_string logger.detail
      let buffer = line name logger time thread_id message
      if ltb max_length_buffer (length buffer) then fault else ok (write_line logger buffer out)))
    else ok out

module _ (logger : Log) (time : List ℕ) (thread_id : ℕ) (message : List ℕ) (out : Written) where
  abbrev pub log_trace : Outcome Written
  log_trace = log_write_in_level logger trace time thread_id message out

  abbrev pub log_debug : Outcome Written
  log_debug = log_write_in_level logger debug time thread_id message out

  abbrev pub log_info : Outcome Written
  log_info = log_write_in_level logger info time thread_id message out

  abbrev pub log_warning : Outcome Written
  log_warning = log_write_in_level logger warning time thread_id message out

  abbrev pub log_error : Outcome Written
  log_error = log_write_in_level logger error time thread_id message out
