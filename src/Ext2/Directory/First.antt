-- ===== src/Ext2/Directory/First.antt =====
-- The first entry with a name, as `list_find` with the comparison of `ext2_find_inode` finds it,
-- against a relation on the list.
use fuse_ext.Base.{
  ℕ, ◌≡◌, ◌≢◌, ◌↔◌, ap, subst, ◌∙◌, refl, true, Bool-cases, inl, inr, ◌==◌, ==_iff, none, some,
  List, [], ◌∷◌, arith,
}
use fuse_ext.Collections.View.{find}
use fuse_ext.Ext2.Directory.{InodeEntry, c_string, str_eq, is_named}

-- The entry is the first of the list whose name, up to its NUL, is this one.
pub data IsFirst (name : List ℕ) : List InodeEntry → InodeEntry → Type 0 where
  at_head :
      {e : InodeEntry} {es : List InodeEntry} → c_string e.name ≡ name → IsFirst name (e ∷ es) e
  behind :
      {x e : InodeEntry} {es : List InodeEntry}
      → c_string x.name ≢ name
      → IsFirst name es e
      → IsFirst name (x ∷ es) e

str_eq-true : (a b : List ℕ) → str_eq a b ≡ true → b ≡ a
str_eq-true [] [] h = refl
str_eq-true [] (d ∷ t) h = cc
str_eq-true (c ∷ s) [] h = cc
str_eq-true (c ∷ s) (d ∷ t) h = elim (Bool-cases (c == d)) [
  | inl e ↦
      let same : c ≡ d = (==_iff c d).0 e in
      let tail : t ≡ s = str_eq-true s t (ground (arith, h, e)) in cc
  | inr e ↦ ground (arith, h, e)
]

str_eq_refl : (a : List ℕ) → str_eq a a ≡ true
str_eq_refl [] = refl
str_eq_refl (c ∷ s) = rw ((==_iff c c).1 refl) (str_eq_refl s)

is_named_iff :
    (name : List ℕ) (e : InodeEntry) → (is_named name e ≡ true) ↔ (c_string e.name ≡ name)
is_named_iff name e =
    (λ h. str_eq-true name (c_string e.name) h, λ h. ap (str_eq name) h ∙ str_eq_refl name)

-- Finding by name gives an entry exactly when it is the first one with the name.
pub find-IsFirst :
    (name : List ℕ) (es : List InodeEntry) (e : InodeEntry)
    → find (is_named name) es ≡ some e
    → IsFirst name es e
find-IsFirst name [] e h = cc
find-IsFirst name (x ∷ es) e h = elim (Bool-cases (is_named name x)) [
  | inl hit ↦
      let same : x ≡ e = ground (arith, h, hit) in
      subst (IsFirst name (x ∷ es)) same (at_head ((is_named_iff name x).0 hit))
  | inr miss ↦
      behind (λ named. let bad = (is_named_iff name x).1 named in cc)
        (find-IsFirst name es e (ground (arith, h, miss)))
]

pub IsFirst-find :
    {name : List ℕ} {es : List InodeEntry} {e : InodeEntry}
    → IsFirst name es e
    → find (is_named name) es ≡ some e
IsFirst-find {name} (at_head {e} named) = rw ((is_named_iff name e).1 named)
IsFirst-find {name} (behind {x} other first) = elim (Bool-cases (is_named name x)) [
  | inl hit ↦ absurd (other ((is_named_iff name x).0 hit))
  | inr miss ↦ rw miss (IsFirst-find first)
]

-- No entry of the list has the name.
pub data IsAbsent (name : List ℕ) : List InodeEntry → Type 0 where
  nowhere : IsAbsent name []
  absent :
      {x : InodeEntry} {es : List InodeEntry}
      → c_string x.name ≢ name
      → IsAbsent name es
      → IsAbsent name (x ∷ es)

pub find-IsAbsent :
    (name : List ℕ) (es : List InodeEntry) → find (is_named name) es ≡ none → IsAbsent name es
find-IsAbsent name [] h = nowhere
find-IsAbsent name (x ∷ es) h = elim (Bool-cases (is_named name x)) [
  | inl hit ↦ let bad : some x ≡ none = ground (arith, h, hit) in cc
  | inr miss ↦
      absent (λ named. let bad = (is_named_iff name x).1 named in cc)
        (find-IsAbsent name es (ground (arith, h, miss)))
]

pub IsAbsent-find :
    {name : List ℕ} {es : List InodeEntry} → IsAbsent name es → find (is_named name) es ≡ none
IsAbsent-find nowhere = refl
IsAbsent-find {name} (absent {x} other rest) = elim (Bool-cases (is_named name x)) [
  | inl hit ↦ absurd (other ((is_named_iff name x).0 hit))
  | inr miss ↦ rw miss (IsAbsent-find rest)
]
