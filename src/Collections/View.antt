-- ===== src/Collections/View.antt =====
-- What a t_list means to its clients: the sequence of its elements. The functions carry the names
-- of list.c.
use fuse_ext.Base.{ℕ, Bool, Option, none, some, List, [], ◌∷◌, ◌++◌, length, if◌then◌else◌}

module _ {ℓ} {A : Type ℓ} where
  abbrev pub add : List A → A → List A
  add self x = self ++ x ∷ []

  abbrev pub size : List A → ℕ
  size = length

  abbrev pub find : (A → Bool) → List A → Option A
  find condition [] = none
  find condition (x ∷ xs) = if condition x then some x else find condition xs
