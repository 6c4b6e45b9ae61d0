-- ===== src/Log/Laws.antt =====
-- The names of the levels, and what a line says.
use fuse_ext.Base.{ℕ, ◌+◌, ◌≤◌, ◌<◌, ◌≡◌, refl, ap, ◌∙◌, List, [], ◌∷◌, ok, le→leb, lt→leb}
use fuse_ext.Base.Int.{pos}
use fuse_ext.Strings.Text.{string_to_lower, string_equals_ignore_case}
use fuse_ext.Strings.Text.Laws.{string_equals_ignore_case_same}
use fuse_ext.Log.{
  Log, LogLevel, trace, debug, info, warning, error, index_of, enum_names, log_level_as_string,
  names_loop, log_level_from_string, is_enable_level_in_logger, Written, log_write_in_level,
}

names_loop_same :
    (names : List (List ℕ)) (i : ℕ) (s t : List ℕ)
    → string_to_lower s ≡ string_to_lower t
    → names_loop names i s ≡ names_loop names i t
unfolding names_loop
names_loop_same [] i s t same = refl
names_loop_same (name ∷ names) i s t same =
    rw (string_equals_ignore_case_same s t name same, names_loop_same names (i + 1) s t same)

-- The name of a level, in whatever case, is read back as the level.
pub log_level_from_string-log_level_as_string :
    (level : LogLevel) (s name : List ℕ)
    → log_level_as_string level ≡ ok name
    → string_to_lower s ≡ string_to_lower name
    → log_level_from_string s ≡ pos (index_of level)
unfolding log_level_from_string log_level_as_string string_equals_ignore_case
log_level_from_string-log_level_as_string level s name named same =
    names_loop_same enum_names 0 s name same ∙ by_level level named
  where
    by_level :
        (l : LogLevel)
        → log_level_as_string l ≡ ok name
        → names_loop enum_names 0 name ≡ pos (index_of l)
    by_level trace h =
        let e : name ≡ b'T' ∷ b'R' ∷ b'A' ∷ b'C' ∷ b'E' ∷ [] = cc in ap (names_loop enum_names 0) e
    by_level debug h =
        let e : name ≡ b'D' ∷ b'E' ∷ b'B' ∷ b'U' ∷ b'G' ∷ [] = cc in ap (names_loop enum_names 0) e
    by_level info h =
        let e : name ≡ b'I' ∷ b'N' ∷ b'F' ∷ b'O' ∷ [] = cc in ap (names_loop enum_names 0) e
    by_level warning h =
        let e : name ≡ b'W' ∷ b'A' ∷ b'R' ∷ b'N' ∷ b'I' ∷ b'N' ∷ b'G' ∷ [] = cc in
        ap (names_loop enum_names 0) e
    by_level error h =
        let e : name ≡ b'E' ∷ b'R' ∷ b'R' ∷ b'O' ∷ b'R' ∷ [] = cc in ap (names_loop enum_names 0) e

-- A line does not say its level: at any two levels that the logger lets through the same text is
-- written, with the name of the logger's detail. At a level below the detail nothing is written.
pub log_write_in_level_label :
    (logger : Log) (a b : LogLevel) (time : List ℕ) (thread_id : ℕ) (message : List ℕ)
    (out : Written)
    → index_of logger.detail ≤ index_of a
    → (index_of logger.detail ≤ index_of b
        → log_write_in_level logger a time thread_id message out
          ≡ log_write_in_level logger b time thread_id message out)
      × (index_of b < index_of logger.detail
          → log_write_in_level logger b time thread_id message out ≡ ok out)
unfolding log_write_in_level is_enable_level_in_logger
log_write_in_level_label logger a b time thread_id message out at_a =
    (λ at_b. rw (le→leb _ _ at_a, le→leb _ _ at_b), λ below. rw (lt→leb _ _ below))
