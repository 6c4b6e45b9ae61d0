-- ===== src/Temporal/Laws.antt =====
-- The time of day fits its buffers.
use fuse_ext.Base.{
  ℕ, zero, suc, ◌+◌, ◌/◌, ◌%◌, ◌^◌, ◌≤◌, ◌<◌, ◌≡◌, refl, none, some, List, [], ◌∷◌, ◌++◌, length,
  length-append, ltb, lt→ltb, Bool-cases, inl, inr, arith, ok, Option-cases, ◌⊎◌, true, pow-one,
}
use native.Mathlib.Nat.{pow-suc}
use fuse_ext.Log.{digits_loop}
use fuse_ext.Temporal.{Clock, time_text, temporal_get_string_time, no_date, no_time}
use fuse_ext.Error.{error_show}

-- A number below 10 to the k+1 has at most k+1 digits.
pub length-digits_loop :
    (fuel k n : ℕ) (acc : List ℕ)
    → n < 10 ^ suc k
    → length (digits_loop fuel n acc) ≤ suc k + length acc
length-digits_loop zero k n acc h = omega arith
length-digits_loop (suc fuel) zero n acc h =
    let small : ltb n 10 ≡ true = lt→ltb n 10 (omega (arith, pow-one 10)) in rw small (omega arith)
length-digits_loop (suc fuel) (suc k) n acc h = elim (Bool-cases (ltb n 10)) [
  | inl e ↦ rw e (omega arith)
  | inr e ↦
      let less : n / 10 < 10 ^ suc k = omega (arith, pow-suc 10 (suc k)) in
      rw e (omega (arith, length-digits_loop fuel k (n / 10) ((b'0' + n % 10) ∷ acc) less))
]

module _ (clock : Clock) where
  -- `temporal_get_string_time`, on every branch, when strftime makes eight characters of every time
  -- and ftime gives less than 1000 milliseconds: without a time or without milliseconds it shows
  -- its error message and returns NULL; otherwise it shows nothing and returns the text of
  -- strftime, a colon and the digits of the milliseconds, and no buffer is too short: the text has
  -- at most twelve characters.
  pub temporal_get_string_time-fits :
      ((t : ℕ) → length (clock.strftime t) ≡ 8)
      → ((ms : ℕ) → clock.millitm ≡ some ms → ms < 1000)
      → ((clock.time ≡ none) × (temporal_get_string_time clock ≡ ok (error_show no_date, none)))
        ⊎ (((clock.millitm ≡ none)
              × (temporal_get_string_time clock ≡ ok (error_show no_time, none)))
            ⊎ ((t : ℕ) × (ms : ℕ) × (clock.time ≡ some t)
                × (clock.millitm ≡ some ms)
                × (temporal_get_string_time clock
                    ≡ ok ([], some (clock.strftime t ++ b':' ∷ digits_loop 5 ms [])))
                × (length (clock.strftime t ++ b':' ∷ digits_loop 5 ms []) ≤ 12)))
  unfolding temporal_get_string_time time_text
  temporal_get_string_time-fits eight small = elim (Option-cases clock.time) [
    | inl e ↦ inl (e, rw e refl)
    | inr (t, e) ↦ elim (Option-cases clock.millitm) [
      | inl f ↦ inr (inl (f, rw (e, f) refl))
      | inr (ms, f) ↦
          let text = clock.strftime t ++ b':' ∷ digits_loop 5 ms [] in
          let power : 10 ^ 3 ≡ 1000 = refl in
          let below : ms < 10 ^ 3 = omega (arith, small ms f) in
          let short : length text ≤ 12 = omega (
            arith,
            eight t,
            length-append (clock.strftime t) (b':' ∷ digits_loop 5 ms []),
            length-digits_loop 5 2 ms [] below,
          ) in
          let room : ltb (length (clock.strftime t)) 9 ≡ true =
            lt→ltb _ _ (omega (arith, eight t)) in
          let room' : ltb (length text) 14 ≡ true = lt→ltb _ _ (omega arith) in
          inr (inr (t, ms, e, f, rw (e, f) (rw (room, room') refl), short))
    ]
  ]
