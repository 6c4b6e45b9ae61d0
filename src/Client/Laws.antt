-- ===== src/Client/Laws.antt =====
-- What the operations return, by the response that comes.
use fuse_ext.Base.{
  ℕ, zero, suc, ◌≤◌, ◌≡◌, refl, ap, ◌∙◌, Bool, true, false, if◌then◌else◌, Option, none, some, List,
  [], ◌∷◌, ◌++◌, length, drop, Outcome, ok, out_of_fuel, ◌>>=◌, le→ltb,
}
use fuse_ext.Base.Int.{ℤ, pos}
use fuse_ext.Rpc.{ReadResponse, GetAttrResponse}
use fuse_ext.Client.{
  Pending, wait, finish, Stat, getattr_closure, fuse_getattr, fuse_readdir, read_closure, fuse_read,
  write_closure, fuse_write, minus_enoent, readdir_closure,
}

-- Some runs that bring nothing.
abbrev pub quiet {ℓ} : {R : Type ℓ} → ℕ → List (Option R) → List (Option R)
quiet zero runs = runs
quiet (suc n) runs = none ∷ quiet n runs

abbrev pub waiting {ℓ} : {S : Type ℓ} → ℤ → S → Pending S
waiting r s = record { is_done = false; res = r; out = s }

abbrev pub done {ℓ} : {S : Type ℓ} → ℤ → S → Pending S
done r s = record { is_done = true; res = r; out = s }

module _ {ℓ κ} {R : Type ℓ} {S : Type κ} (closure : R → Pending S → Outcome (Pending S)) where
  wait-response :
      (n : ℕ) (r : R) (runs : List (Option R)) (i : ℤ) (s : S)
      → wait closure (quiet n (some r ∷ runs)) (waiting i s)
        ≡ (closure r (waiting i s) >>= λ q. wait closure runs q)
  unfolding wait
  wait-response zero r runs i s = refl
  wait-response (suc n) r runs i s = wait-response n r runs i s

  pub wait-done :
      (runs : List (Option R)) (i : ℤ) (s : S) → wait closure runs (done i s) ≡ ok (done i s)
  unfolding wait
  wait-done [] i s = refl
  wait-done (none ∷ runs) i s = refl
  wait-done (some r ∷ runs) i s = refl

  wait-nothing : (n : ℕ) (i : ℤ) (s : S) → wait closure (quiet n []) (waiting i s) ≡ out_of_fuel
  unfolding wait
  wait-nothing zero i s = refl
  wait-nothing (suc n) i s = wait-nothing n i s

abbrev pub stat_of : GetAttrResponse → Stat
stat_of r = record { st_mode = r.mode; st_size = r.size; st_nlink = r.nlinks; st_blocks = r.blocks }

-- `getattr` ends with the response, however long it takes, and on every branch: for a file that
-- exists the four fields of the response and 0, for another -ENOENT and an untouched buffer.
pub fuse_getattr-response :
    (path : List ℕ) (stbuf : Stat) (n : ℕ) (r : GetAttrResponse)
    (runs : List (Option GetAttrResponse))
    → (fuse_getattr path stbuf).1 (quiet n (some r ∷ runs))
      ≡ (if r.fileexist then ok (pos 0, stat_of r) else ok (minus_enoent, stbuf))
unfolding fuse_getattr
fuse_getattr-response path stbuf n r runs =
    ap finish (wait-response getattr_closure n r runs (pos 0) stbuf) ∙ by_existence r.fileexist refl
  where
    by_existence :
        (b : Bool)
        → r.fileexist ≡ b
        → finish (getattr_closure r (waiting (pos 0) stbuf) >>= λ q. wait getattr_closure runs q)
          ≡ (if b then ok (pos 0, stat_of r) else ok (minus_enoent, stbuf))
    by_existence true e =
        unfold getattr_closure in
        rw e (ap finish (wait-done getattr_closure runs (pos 0) (stat_of r)))
    by_existence false e =
        unfold getattr_closure in
        rw e (ap finish (wait-done getattr_closure runs minus_enoent stbuf))

-- `read` ends with a response that has no error and fits the buffer: the result is the number of
-- bytes, which stand at the start of the buffer; the rest of it is as before.
pub fuse_read-response :
    (path buf : List ℕ) (offset n : ℕ) (bytes : List ℕ) (runs : List (Option ReadResponse))
    → length bytes ≤ length buf
    → (fuse_read path buf offset).1
        (quiet n (some (record { bytes = bytes; error = false }) ∷ runs))
      ≡ ok (pos (length bytes), bytes ++ drop (length bytes) buf)
unfolding fuse_read
fuse_read-response path buf offset n bytes runs fits =
    ap finish
      (wait-response read_closure n (record { bytes = bytes; error = false }) runs (pos 0) buf)
    ∙ copied
  where
    copied :
        finish (
          read_closure (record { bytes = bytes; error = false }) (waiting (pos 0) buf) >>= λ q.
          wait read_closure runs q)
        ≡ ok (pos (length bytes), bytes ++ drop (length bytes) buf)
    copied =
        unfold read_closure in
        rw (le→ltb (length buf) (length bytes) fits) (
          ap finish
            (wait-done read_closure runs (pos (length bytes)) (bytes ++ drop (length bytes) buf)))

-- `readdir` ends with the response, returns 0, and hands over every name, in order.
pub fuse_readdir-response :
    (path : List ℕ) (buf elements : List (List ℕ)) (n : ℕ) (runs : List (Option (List (List ℕ))))
    → (fuse_readdir path buf).1 (quiet n (some elements ∷ runs)) ≡ ok (pos 0, buf ++ elements)
unfolding fuse_readdir
fuse_readdir-response path buf elements n runs = ap finish (
    wait-response readdir_closure n elements runs (pos 0) buf
    ∙ unfold readdir_closure in wait-done readdir_closure runs (pos 0) (buf ++ elements))

-- The closures of `read` and `write` do not set `is_done` on an error. When the only response to the
-- request is, for a read, one with an error or, for a write, one behind which the closure finds a value
-- that is not 0, they wait for ever: however many more runs of the dispatch loop bring nothing,
-- neither returns.
pub fuse_read-fuse_write-error :
    (path buf : List ℕ) (offset n k : ℕ) (bytes : List ℕ)
    → ((fuse_read path buf offset).1
          (quiet n (some (record { bytes = bytes; error = true }) ∷ quiet k []))
        ≡ out_of_fuel)
      × ((fuse_write path buf offset).1 (quiet n (some true ∷ quiet k [])) ≡ out_of_fuel)
unfolding fuse_read fuse_write
fuse_read-fuse_write-error path buf offset n k bytes = (
  ap finish (
      wait-response read_closure n (record { bytes = bytes; error = true }) (quiet k []) (pos 0) buf
      ∙ unfold read_closure in wait-nothing read_closure k minus_enoent buf),
  ap finish (
      wait-response write_closure n true (quiet k []) (pos 0) tt
      ∙ unfold write_closure in wait-nothing write_closure k minus_enoent tt),
)

-- When the closure finds 0 behind the response, a `write` returns 0, and not the number of bytes
-- written, whatever the response says.
pub fuse_write-response :
    (path buf : List ℕ) (offset n : ℕ) (runs : List (Option Bool))
    → (fuse_write path buf offset).1 (quiet n (some false ∷ runs)) ≡ ok (pos 0, tt)
unfolding fuse_write
fuse_write-response path buf offset n runs = ap finish (
    wait-response write_closure n false runs (pos 0) tt
    ∙ unfold write_closure in wait-done write_closure runs (pos 0) tt)
