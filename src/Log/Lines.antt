-- ===== src/Log/Lines.antt =====
-- The lines of a logger fit their buffer.
use fuse_ext.Base.{
  ℕ, zero, suc, ◌+◌, ◌-◌, ◌/◌, ◌%◌, ◌^◌, ◌≤◌, ◌≡◌, refl, List, [], ◌∷◌, length, length-append, ltb,
  le→ltb, Bool-cases, inl, inr, false, if◌then◌else◌, arith, ok,
}
use fuse_ext.Log.{
  Log, LogLevel, trace, debug, info, warning, error, log_level_as_string, is_enable_level_in_logger,
  digits_loop, decimal, line, write_line, Written, log_write_in_level,
}

length-digits : (fuel n : ℕ) (acc : List ℕ) → length (digits_loop fuel n acc) ≤ fuel + length acc
length-digits zero n acc = omega arith
length-digits (suc fuel) n acc = elim (Bool-cases (ltb n 10)) [
  | inl e ↦ rw e (omega arith)
  | inr e ↦ rw e (omega (arith, length-digits fuel (n / 10) ((b'0' + n % 10) ∷ acc)))
]

length-decimal : (n : ℕ) → length (decimal n) ≤ 11
length-decimal n = elim (Bool-cases (ltb n (2 ^ 31))) [
  | inl e ↦ rw e (omega (arith, length-digits 10 n []))
  | inr e ↦ rw e (omega (arith, length-digits 10 (2 ^ 32 - n) []))
]

-- Every level has a name, of at most seven characters.
level_name :
    (level : LogLevel) → (name : List ℕ) × (log_level_as_string level ≡ ok name) × (length name ≤ 7)
unfolding log_level_as_string
level_name trace = (_, refl, omega arith)
level_name debug = (_, refl, omega arith)
level_name info = (_, refl, omega arith)
level_name warning = (_, refl, omega arith)
level_name error = (_, refl, omega arith)

length-line :
    (name : List ℕ) (logger : Log) (time : List ℕ) (thread_id : ℕ) (message : List ℕ)
    → length (line name logger time thread_id message)
      ≡ length name
        + length time
        + length logger.program_name
        + length (decimal logger.pid)
        + length (decimal thread_id)
        + length message
        + 11
length-line name logger time thread_id message = simp length-append (omega arith)

-- A call of a logger with a program name of at most 48 characters, a time of at most twelve and a
-- message of at most 1024 never writes past a buffer: at a level that the logger lets through, a
-- line is added to the file and the console, as far as the logger has them, with the name of its
-- detail, the time, the program, its process and thread and the message; at another level nothing
-- is written.
pub log_write_in_level-fits :
    (logger : Log) (level : LogLevel) (time : List ℕ) (thread_id : ℕ) (message : List ℕ)
    (out : Written)
    → length logger.program_name ≤ 48
    → length time ≤ 12
    → length message ≤ 1024
    → (name : List ℕ) × (log_level_as_string logger.detail ≡ ok name)
      × (log_write_in_level logger level time thread_id message out
          ≡ ok (
              if is_enable_level_in_logger logger level
              then write_line logger (line name logger time thread_id message) out
              else out))
unfolding log_write_in_level
log_write_in_level-fits logger level time thread_id message out program timed short =
    let (name, named, few) = level_name logger.detail in
    let fits : ltb 1024 (length message) ≡ false = le→ltb _ _ short in
    let size : length (line name logger time thread_id message) ≤ 1124 = omega (
      arith,
      length-line name logger time thread_id message,
      length-decimal logger.pid,
      length-decimal thread_id,
    ) in
    let room : ltb 1124 (length (line name logger time thread_id message)) ≡ false =
      le→ltb _ _ size in
    (
      name,
      named,
      elim (Bool-cases (is_enable_level_in_logger logger level)) [
        | inl e ↦ rw (e, fits, named) (rw room refl)
        | inr e ↦ rw e refl
      ],
    )
