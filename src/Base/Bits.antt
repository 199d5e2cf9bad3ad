-- ===== src/Base/Bits.antt =====
-- The bits of a byte, and the updates `b |= 1 << k` and `b &= ~(1 << k)`, bit by bit.
use Prim.Native.Nat.{ℕ, zero, suc, ◌+◌, ◌*◌, ◌/◌, ◌%◌, ◌<◌, ◌^◌}
use mathlib.Core.Path.{◌≡◌}
use mathlib.Core.Bool.{Bool, not, ◌&&◌, ◌||◌}
use native.Mathlib.Omega.{arith}
use bcm_server.Base.Tests.{eqb}

-- `b & (1 << k)`, as a condition.
unfoldable pub bit : ℕ → ℕ → Bool
bit zero b = eqb (b % 2) 1
bit (suc k) b = bit k (b / 2)

unfoldable pub set_bit : ℕ → ℕ → ℕ
set_bit zero b = 2 * (b / 2) + 1
set_bit (suc k) b = 2 * set_bit k (b / 2) + b % 2

unfoldable pub clear_bit : ℕ → ℕ → ℕ
clear_bit zero b = 2 * (b / 2)
clear_bit (suc k) b = 2 * clear_bit k (b / 2) + b % 2

pub bit-set_bit : (j k b : ℕ) → bit j (set_bit k b) ≡ (eqb j k || bit j b)
unfolding bit set_bit
bit-set_bit zero zero b = ground arith
bit-set_bit zero (suc k) b = ground arith
bit-set_bit (suc j) zero b = ground arith
bit-set_bit (suc j) (suc k) b = ground (arith, bit-set_bit j k (b / 2))

pub bit-clear_bit : (j k b : ℕ) → bit j (clear_bit k b) ≡ (not (eqb j k) && bit j b)
unfolding bit clear_bit
bit-clear_bit zero zero b = ground arith
bit-clear_bit zero (suc k) b = ground arith
bit-clear_bit (suc j) zero b = ground arith
bit-clear_bit (suc j) (suc k) b = ground (arith, bit-clear_bit j k (b / 2))

-- A byte stays a byte when one of its eight bits is set.
pub set_bit-lt : (k w b : ℕ) → k < w → b < 2 ^ w → set_bit k b < 2 ^ w
unfolding set_bit
set_bit-lt k zero b h p = ground arith
set_bit-lt zero (suc w) b h p = ground arith
set_bit-lt (suc k) (suc w) b h p =
    ground (arith, set_bit-lt k w (b / 2) (ground arith) (ground arith))
