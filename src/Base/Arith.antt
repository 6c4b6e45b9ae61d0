-- ===== src/Base/Arith.antt =====
-- Laws of products and powers on the native numbers.
use Prim.Native.Nat.{ℕ, ◌+◌, ◌*◌, ◌/◌, ◌%◌, ◌^◌, ◌≤◌, ◌<◌}
use mathlib.Core.Path.{◌≡◌, refl, sym, ap, ◌∙◌}
use native.Mathlib.Nat.{
  pow-zero, pow-suc, div-eq_of_lt, add-mul-div_right, add-mul-mod_self_right, mod-eq_of_lt,
}
use native.Mathlib.Omega.{arith}

pub pow-one : (a : ℕ) → a ^ 1 ≡ a
pow-one a = pow-suc a 0 ∙ rw pow-zero (omega arith)

pub mul-lt : (n k b : ℕ) → n < k → n * b + b ≤ k * b
mul-lt n k b h = grind arith

pub split_index : (g i n : ℕ) → i < n → ((g * n + i) / n ≡ g) × ((g * n + i) % n ≡ i)
split_index g i n h =
    let e : g * n + i ≡ i + g * n = omega arith in
    let pos : 0 < n = omega arith in
    let q : (i + g * n) / n ≡ g = add-mul-div_right i g pos ∙ rw (div-eq_of_lt h) (omega arith) in
    rw (e, q) (refl, add-mul-mod_self_right i g n ∙ mod-eq_of_lt h)

-- A number of the form x * n + r, with r below n, fixes x and r.
pub same_quotient : (x y r s n : ℕ) → r < n → s < n → x * n + r ≡ y * n + s → (x ≡ y) × (r ≡ s)
same_quotient x y r s n hr hs same =
    let (qx, rx) = split_index x r n hr in
    let (qy, ry) = split_index y s n hs in
    (sym qx ∙ ap (λ (t : ℕ). t / n) same ∙ qy, sym rx ∙ ap (λ (t : ℕ). t % n) same ∙ ry)
