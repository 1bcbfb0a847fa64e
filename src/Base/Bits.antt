-- ===== src/Base/Bits.antt =====
-- Tests that hold at every value of a small range.
use Prim.Native.Nat.{ℕ, zero, suc, ◌<◌}
use mathlib.Core.Path.{◌≡◌}
use mathlib.Core.Bool.{Bool, true, ◌&&◌}
use native.Mathlib.Omega.{arith}

-- Every number below a bound passes the test.
unfoldable pub all_under : ℕ → (ℕ → Bool) → Bool
all_under zero test = true
all_under (suc bound) test = all_under bound test && test bound

pub all_under-at :
    (bound : ℕ) (test : ℕ → Bool) (n : ℕ) → n < bound → all_under bound test ≡ true → test n ≡ true
unfolding all_under
all_under-at zero test n h passed = absurd (omega arith)
all_under-at (suc bound) test n h passed = ground (arith, all_under-at bound test n)
