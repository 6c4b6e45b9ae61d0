-- ===== src/Client/Returns.antt =====
-- When a FUSE read returns.
use fuse_ext.Base.{
  ℕ, ◌≤◌, ◌≡◌, ◌↔◌, refl, sym, ap, ◌∙◌, Bool, true, false, ltb, ltb→le, le→ltb, Bool-cases, inl,
  inr, if◌then◌else◌, Option, none, some, List, [], ◌∷◌, ◌++◌, length, drop, ok, ok-injective,
  fault,
}
use fuse_ext.Base.Int.{ℤ, pos}
use fuse_ext.Rpc.{ReadResponse}
use fuse_ext.Client.{wait, finish, read_closure, fuse_read, minus_enoent}
use fuse_ext.Client.Laws.{waiting, wait-done}

-- The first response without an error that the runs of the dispatch loop bring.
pub data FirstContent : List (Option ReadResponse) → List ℕ → Type 0 where
  here :
      {bytes : List ℕ} {runs : List (Option ReadResponse)}
      → FirstContent (some (record { bytes = bytes; error = false }) ∷ runs) bytes
  nothing :
      {bytes : List ℕ} {runs : List (Option ReadResponse)}
      → FirstContent runs bytes
      → FirstContent (none ∷ runs) bytes
  failed :
      {bytes other : List ℕ} {runs : List (Option ReadResponse)}
      → FirstContent runs bytes
      → FirstContent (some (record { bytes = other; error = true }) ∷ runs) bytes

abbrev result_of : List ℕ → List ℕ → ℤ × List ℕ
result_of buf bytes = (pos (length bytes), bytes ++ drop (length bytes) buf)

module _ (buf : List ℕ) where
  -- A response without an error ends the wait, or faults when it does not fit.
  wait-content :
      (bytes : List ℕ) (runs : List (Option ReadResponse)) (i : ℤ)
      → finish (
          wait read_closure (some (record { bytes = bytes; error = false }) ∷ runs) (waiting i buf))
        ≡ (if ltb (length buf) (length bytes) then fault else ok (result_of buf bytes))
  unfolding wait read_closure
  wait-content bytes runs i = elim (Bool-cases (ltb (length buf) (length bytes))) [
    | inl e ↦ rw e refl
    | inr e ↦ rw e (
        ap finish
          (wait-done read_closure runs (pos (length bytes)) (bytes ++ drop (length bytes) buf)))
  ]

  wait-failed :
      (bytes : List ℕ) (runs : List (Option ReadResponse)) (i : ℤ)
      → wait read_closure (some (record { bytes = bytes; error = true }) ∷ runs) (waiting i buf)
        ≡ wait read_closure runs (waiting minus_enoent buf)
  unfolding wait read_closure
  wait-failed bytes runs i = refl

  -- What is known of a read that returned x.
  abbrev Returned : List (Option ReadResponse) → ℤ × List ℕ → Type 0
  Returned runs x =
      (bytes : List ℕ) × FirstContent runs bytes
      × (length bytes ≤ length buf)
      × (x ≡ result_of buf bytes)

  from_response :
      (bytes : List ℕ) (error : Bool) (runs : List (Option ReadResponse)) (i : ℤ) (x : ℤ × List ℕ)
      → (finish (wait read_closure runs (waiting minus_enoent buf)) ≡ ok x → Returned runs x)
      → finish (
          wait read_closure (some (record { bytes = bytes; error = error }) ∷ runs) (waiting i buf))
        ≡ ok x
      → Returned (some (record { bytes = bytes; error = error }) ∷ runs) x
  from_response bytes true runs i x others run =
      let (bytes', first, fits, same) = others (ap finish (sym (wait-failed bytes runs i)) ∙ run) in
      (bytes', failed first, fits, same)
  from_response bytes false runs i x others run =
      let result = sym (wait-content bytes runs i) ∙ run in
      elim (Bool-cases (ltb (length buf) (length bytes))) [
        | inl e ↦
            let broken : fault ≡ ok x =
              ap (λ b. if b then fault else ok (result_of buf bytes)) (sym e) ∙ result in
            cc
        | inr e ↦
            let whole : ok (result_of buf bytes) ≡ ok x =
              ap (λ b. if b then fault else ok (result_of buf bytes)) (sym e) ∙ result in
            (bytes, here, ltb→le _ _ e, sym (ok-injective whole))
      ]

  returned :
      (runs : List (Option ReadResponse)) (i : ℤ) (x : ℤ × List ℕ)
      → finish (wait read_closure runs (waiting i buf)) ≡ ok x
      → Returned runs x
  unfolding wait
  returned [] i x run = cc
  returned (none ∷ runs) i x run =
      let (bytes, first, fits, same) = returned runs i x run in (bytes, nothing first, fits, same)
  returned (some r ∷ runs) i x run =
      from_response r.bytes r.error runs i x (returned runs minus_enoent x) run

  returns :
      {runs : List (Option ReadResponse)} {bytes : List ℕ} (i : ℤ)
      → FirstContent runs bytes
      → length bytes ≤ length buf
      → finish (wait read_closure runs (waiting i buf)) ≡ ok (result_of buf bytes)
  unfolding wait
  returns i (here {bytes} {runs}) fits =
      wait-content bytes runs i ∙ rw (le→ltb (length buf) (length bytes) fits) refl
  returns i (nothing first) fits = returns i first fits
  returns i (failed {other} {runs} first) fits =
      ap finish (wait-failed other runs i) ∙ returns minus_enoent first fits

-- A FUSE read returns exactly when its dispatch loop brings, whatever comes before, a response
-- without an error whose bytes fit the buffer: for the first such response the result is the number of
-- its bytes, which stand at the start of the buffer; the rest of it is as before.
pub fuse_read_iff :
    (path buf : List ℕ) (offset : ℕ) (runs : List (Option ReadResponse)) (x : ℤ × List ℕ)
    → ((fuse_read path buf offset).1 runs ≡ ok x) ↔ (
        (bytes : List ℕ) × FirstContent runs bytes
        × (length bytes ≤ length buf)
        × (x ≡ (pos (length bytes), bytes ++ drop (length bytes) buf)))
unfolding fuse_read
fuse_read_iff path buf offset runs x = (
  returned buf runs (pos 0) x,
  λ (bytes, first, fits, same). returns buf (pos 0) first fits ∙ ap ok (sym same),
)
