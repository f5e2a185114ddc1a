-- ===== src/Base/Tables.antt =====
-- Facts over a small range, checked by evaluating every value.
use Prim.Native.Nat.{ℕ, zero, suc, ◌<◌}
use mathlib.Core.Path.{◌≡◌}
use mathlib.Core.Bool.{Bool, true, ◌&&◌}
use native.Mathlib.Omega.{arith}

unfoldable pub holds_below : (ℕ → Bool) → ℕ → Bool
holds_below test zero = true
holds_below test (suc limit) = test limit && holds_below test limit

pub holds_below_sound :
    (test : ℕ → Bool) (limit : ℕ)
    → holds_below test limit ≡ true
    → (i : ℕ) → i < limit
    → test i ≡ true
unfolding holds_below
holds_below_sound test zero checked i small = absurd (omega arith)
holds_below_sound test (suc limit) checked i small =
    ground (arith, holds_below_sound test limit (ground arith) i)
