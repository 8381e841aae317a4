-- ===== src/Prelude/Tables.antt =====
-- Properties of the numbers in a short range, decided by evaluation.
use Prim.Native.Nat.{ℕ, zero, suc, ◌<◌}
use mathlib.Core.Path.{◌≡◌}
use mathlib.Core.Bool.{Bool, true, ◌&&◌}
use native.Mathlib.Omega.{arith}

-- The test holds for the `count` numbers below `count`.
unfoldable pub holds_below : ℕ → (ℕ → Bool) → Bool
holds_below zero test = true
holds_below (suc count) test = holds_below count test && test count

pub holds_below-at :
    (count : ℕ) (test : ℕ → Bool) (k : ℕ)
    → holds_below count test ≡ true
    → k < count
    → test k ≡ true
unfolding holds_below
holds_below-at zero test k checked small = absurd (omega arith)
holds_below-at (suc count) test k checked small = ground (arith, holds_below-at count test k)
