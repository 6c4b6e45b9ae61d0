-- ===== src/Base/Bits.antt =====
-- Facts checked by evaluation over a small range.
use Prim.Native.Nat.{ℕ, zero, suc, ◌<◌}
use mathlib.Core.Path.{◌≡◌}
use mathlib.Core.Bool.{Bool, true, false}
use native.Mathlib.Omega.{arith}
use fuse_ext.Base.Tests.{if◌then◌else◌}

-- The test holds at all numbers below the bound.
unfoldable pub holds_below : (ℕ → Bool) → ℕ → Bool
holds_below test zero = true
holds_below test (suc bound) = if test bound then holds_below test bound else false

pub holds_below_lem :
    (bound : ℕ) (test : ℕ → Bool) (i : ℕ)
    → holds_below test bound ≡ true
    → i < bound
    → test i ≡ true
unfolding holds_below
holds_below_lem zero test i table inside = absurd (omega arith)
holds_below_lem (suc bound) test i table inside = ground (arith, holds_below_lem bound test i)
