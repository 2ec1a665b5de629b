-- ===== src/Base/Bits.antt =====
-- A test over all bytes, for the facts on their bits.
use Prim.Native.Nat.{ℕ, zero, suc, ◌<◌}
use mathlib.Core.Path.{◌≡◌}
use mathlib.Core.Bool.{Bool, true, false}
use native.Mathlib.Omega.{arith}
use nbos.Base.Tests.{if◌then◌else◌}

-- Whether the test succeeds on each number under `top`.
unfoldable pub all_below : ℕ → (ℕ → Bool) → Bool
all_below zero test = true
all_below (suc top) test = let rest = all_below top test in if test top then rest else false

pub all_below_sound :
    (top : ℕ) (test : ℕ → Bool) (k : ℕ) → all_below top test ≡ true → k < top → test k ≡ true
unfolding all_below
all_below_sound zero test k all under = absurd (omega arith)
all_below_sound (suc top) test k all under = ground (arith, all_below_sound top test k)
