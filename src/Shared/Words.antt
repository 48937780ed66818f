-- ===== src/Shared/Words.antt =====
-- Go's `int64`: signed values as integers, and the sum of two values that are not negative.
use Prim.Native.Nat.{ℕ, suc, ◌+◌, ◌*◌, ◌%◌, ◌-◌, ◌^◌, ◌<◌}
use mathlib.Core.Path.{◌≡◌}
use mathlib.Core.Bool.{Bool, true, false}
use native.Mathlib.Omega.{arith}
use nexium_storage_back.Shared.Tests.{ltb, if◌then◌else◌}

-- `negsuc n` is -(n + 1).
pub data ℤ : Type 0 where
  pos : ℕ → ℤ
  negsuc : ℕ → ℤ

abbrev pub int64_bound : ℕ
int64_bound = 2 ^ 63

abbrev uint64_bound : ℕ
uint64_bound = 2 ^ 64

-- `a + b` for 0 ≤ a, b < 2^63: past the bound the sum wraps around to a negative value.
unfoldable pub add_int64 : ℕ → ℕ → ℤ
add_int64 a b = if ltb (a + b) int64_bound then pos (a + b) else negsuc (uint64_bound - (a + b) - 1)

-- The 64 bits of a number as a signed value.
unfoldable pub int64_of_bits : ℕ → ℤ
int64_of_bits n = if ltb n int64_bound then pos n else negsuc (uint64_bound - n - 1)

-- `a * b` for an int64 `a` and a constant `b`, modulo 2^64.
unfoldable pub mul_int64 : ℤ → ℕ → ℤ
mul_int64 (pos a) b = int64_of_bits (a * b % uint64_bound)
mul_int64 (negsuc a) b = int64_of_bits ((uint64_bound - suc a * b % uint64_bound) % uint64_bound)

-- `a > b`
abbrev pub gtb_ℤ : ℤ → ℤ → Bool
gtb_ℤ (pos a) (pos b) = ltb b a
gtb_ℤ (pos a) (negsuc b) = true
gtb_ℤ (negsuc a) (pos b) = false
gtb_ℤ (negsuc a) (negsuc b) = ltb a b

-- Below the bound the sum is the sum.
pub add_int64_exact : (a b : ℕ) → a + b < int64_bound → add_int64 a b ≡ pos (a + b)
unfolding add_int64
add_int64_exact a b h = ground arith

pub mul_int64_exact : (a b : ℕ) → a * b < int64_bound → mul_int64 (pos a) b ≡ pos (a * b)
unfolding mul_int64 int64_of_bits
mul_int64_exact a b h = ground arith
