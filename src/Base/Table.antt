-- ===== src/Base/Table.antt =====
-- Facts about all numbers below a bound, by evaluation.
use Prim.Native.Nat.{ℕ, zero, suc, ◌<◌}
use mathlib.Core.Path.{◌≡◌}
use mathlib.Core.Bool.{Bool, true, false}
use snowkernel.Base.Tests.{if◌then◌else◌}
use native.Mathlib.Omega.{arith}

-- Whether every number under the bound passes the test.
unfoldable pub all_below : ℕ → (ℕ → Bool) → Bool
all_below zero test = true
all_below (suc bound) test = if test bound then all_below bound test else false

pub all_below_sound :
    (bound : ℕ) (test : ℕ → Bool) (i : ℕ) → all_below bound test ≡ true → i < bound → test i ≡ true
unfolding all_below
all_below_sound zero test i passed low = absurd (omega arith)
all_below_sound (suc bound) test i passed low = ground (arith, all_below_sound bound test i)
