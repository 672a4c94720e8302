-- ===== src/Prelude/Tables.antt =====
-- A statement about every byte, checked by evaluation.
use Prim.Native.Nat.{ℕ, zero, suc, ◌<◌}
use mathlib.Core.Path.{◌≡◌}
use mathlib.Core.Bool.{Bool, true, ◌&&◌}
use native.Mathlib.Omega.{arith}

-- The test holds of every number in front of `bound`.
unfoldable pub all_below : ℕ → (ℕ → Bool) → Bool
all_below zero test = true
all_below (suc bound) test = all_below bound test && test bound

pub all_below_sound :
    (bound : ℕ) (test : ℕ → Bool) (b : ℕ) → all_below bound test ≡ true → b < bound → test b ≡ true
unfolding all_below
all_below_sound zero test b passed small = absurd (omega arith)
all_below_sound (suc bound) test b passed small = ground (arith, all_below_sound bound test b)
