-- ===== src/Error.antt =====
-- fuse_ext2_commons/src/error.c: an error message. vprintf belongs to the C library: what is handed
-- to it as the format is the result.
use fuse_ext.Base.{ℕ, List, [], ◌∷◌, ◌++◌}

abbrev pub error_label : List ℕ
error_label = b'[' ∷ b'[' ∷ b'E' ∷ b'R' ∷ b'R' ∷ b'O' ∷ b'R' ∷ b']' ∷ b']' ∷ []

-- `string_append` to a copy of the label.
unfoldable pub error_show : List ℕ → List ℕ
error_show message = error_label ++ message
