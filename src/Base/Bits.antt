-- ===== src/Base/Bits.antt =====
-- Facts about all bytes, checked value by value.
use Prim.Native.Nat.{ℕ, zero, suc, ◌<◌}
use mathlib.Core.Path.{◌≡◌}
use mathlib.Core.Bool.{Bool, true, ◌&&◌}
use native.Mathlib.Omega.{arith}

-- The test holds of every number below the bound.
unfoldable pub holds_below : ℕ → (ℕ → Bool) → Bool
holds_below zero test = true
holds_below (suc bound) test = holds_below bound test && test bound

pub from_table :
    (bound : ℕ) (test : ℕ → Bool) (b : ℕ)
    → holds_below bound test ≡ true
    → b < bound
    → test b ≡ true
unfolding holds_below
from_table (suc bound) test b table less = ground (arith, from_table bound test b)
from_table zero test b table less = absurd (omega arith)
