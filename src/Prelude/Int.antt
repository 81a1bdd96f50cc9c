-- ===== src/Prelude/Int.antt =====
-- Go's signed integers over the native numbers, with their 64-bit two's complement pattern.
use Prim.Native.Nat.{ℕ, zero, suc, ◌-◌, ◌^◌, ◌<◌, ◌%◌}
use mathlib.Core.Path.{◌≡◌}
use mathlib.Core.Bool.{Bool, true, false}
use native.Mathlib.Omega.{arith}

-- `negsuc n` is -(n + 1).
pub data ℤ : Type 0 where
  pos : ℕ → ℤ
  negsuc : ℕ → ℤ

-- The value of a nonnegative integer, 0 for a negative one.
abbrev pub to_nat : ℤ → ℕ
to_nat (pos n) = n
to_nat (negsuc n) = 0

-- `i == 0`.
abbrev pub is_zero : ℤ → Bool
is_zero (pos zero) = true
is_zero (pos (suc n)) = false
is_zero (negsuc n) = false

-- `i <= 0` and `i < 0`.
abbrev pub is_nonpos : ℤ → Bool
is_nonpos (pos zero) = true
is_nonpos (pos (suc n)) = false
is_nonpos (negsuc n) = true

abbrev pub is_neg : ℤ → Bool
is_neg (pos n) = false
is_neg (negsuc n) = true

-- An `int64` value.
abbrev pub IsInt64 : ℤ → Type 0
IsInt64 (pos n) = n < 2 ^ 63
IsInt64 (negsuc n) = n < 2 ^ 63

-- `uint64(i)` of an `int64`: the same 64 bits.
abbrev pub to_u64 : ℤ → ℕ
to_u64 (pos n) = n % 2 ^ 64
to_u64 (negsuc n) = 2 ^ 64 - 1 - n % 2 ^ 64

pub to_u64-lt : (i : ℤ) → to_u64 i < 2 ^ 64
to_u64-lt (pos n) = omega arith
to_u64-lt (negsuc n) = omega arith

pub to_u64_injective : (i j : ℤ) → IsInt64 i → IsInt64 j → to_u64 i ≡ to_u64 j → i ≡ j
to_u64_injective (pos n) (pos m) hi hj e = ground arith
to_u64_injective (pos n) (negsuc m) hi hj e = absurd (omega arith)
to_u64_injective (negsuc n) (pos m) hi hj e = absurd (omega arith)
to_u64_injective (negsuc n) (negsuc m) hi hj e = ground arith
