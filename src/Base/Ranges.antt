-- ===== src/Base/Ranges.antt =====
-- Facts about all numbers below a small bound, by evaluation.
use Prim.Native.Nat.{ℕ, zero, suc, ◌<◌}
use mathlib.Core.Path.{◌≡◌}
use mathlib.Core.Bool.{Bool, true, ◌&&◌}
use native.Mathlib.Omega.{arith}

unfoldable pub all_below : (bound : ℕ) (test : ℕ → Bool) → Bool
all_below zero test = true
all_below (suc k) test = test k && all_below k test

pub all_below_lem :
    (bound : ℕ) (test : ℕ → Bool) (k : ℕ) → k < bound → all_below bound test ≡ true → test k ≡ true
unfolding all_below
all_below_lem zero test k lt all = absurd (omega arith)
all_below_lem (suc n) test k lt all = ground (arith, all_below_lem n test k)
