-- ===== src/Prelude/Ints.antt =====
-- Go's `int64`: integers over the native numbers, with the wrap-around of its arithmetic.
use Prim.Native.Nat.{ℕ, suc, ◌+◌, ◌-◌, ◌*◌, ◌%◌, ◌^◌, ◌<◌}
use mathlib.Core.Path.{◌≡◌}
use mathlib.Core.Bool.{Bool}
use native.Mathlib.Omega.{arith}
use gpass.Prelude.Tests.{ltb, if◌then◌else◌}

-- `negsuc n` is -(n + 1).
pub data ℤ : Type 0 where
  pos : ℕ → ℤ
  negsuc : ℕ → ℤ

abbrev pub pos_part : ℤ → ℕ
pos_part (pos n) = n
pos_part (negsuc n) = 0

abbrev pub neg_part : ℤ → ℕ
neg_part (pos n) = 0
neg_part (negsuc n) = suc n

abbrev pub ltb_ℤ : ℤ → ℤ → Bool
ltb_ℤ a b = ltb (pos_part a + neg_part b) (pos_part b + neg_part a)

-- the integer with a given 64-bit two's complement pattern
abbrev pub of_bits : ℕ → ℤ
of_bits r = if ltb r (2 ^ 63) then pos r else negsuc (2 ^ 64 - 1 - r)

-- what is left of an integer in 64 bits
abbrev pub wrap64 : ℤ → ℤ
wrap64 (pos n) = of_bits (n % 2 ^ 64)
wrap64 (negsuc n) = of_bits (2 ^ 64 - 1 - n % 2 ^ 64)

-- `a * k` for a positive constant `k`, in 64 bits
unfoldable pub mul64 : ℤ → ℕ → ℤ
mul64 (pos n) k = wrap64 (pos (n * k))
mul64 (negsuc n) k = wrap64 (negsuc (suc n * k - 1))

-- a time `t` (in nanoseconds) moved by a duration
unfoldable pub add_time : ℕ → ℤ → ℕ
add_time t (pos n) = t + n
add_time t (negsuc n) = t - suc n

pub mul64_exact : (n k : ℕ) → n * k < 2 ^ 63 → mul64 (pos n) k ≡ pos (n * k)
unfolding mul64
mul64_exact n k h = ground arith
