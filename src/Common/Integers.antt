-- ===== src/Common/Integers.antt =====
-- C's signed integers, built on the native numbers, under the library's names.
use Prim.Native.Nat.{ℕ, ◌+◌, ◌-◌, ◌%◌, ◌^◌}
use mathlib.Core.Bool.{Bool, true, false}
use assimilation_official.Common.Tests.{ltb, leb, ◌==◌, if◌then◌else◌}

-- `negsuc n` is -(n + 1).
pub data ℤ : Type 0 where
  pos : ℕ → ℤ
  negsuc : ℕ → ℤ

-- `x > 0`
abbrev pub is_positive : ℤ → Bool
is_positive (ℤ.pos n) = ltb 0 n
is_positive (ℤ.negsuc n) = false

-- `x > 0 ? x : 0`
abbrev pub positive_part : ℤ → ℕ
positive_part (ℤ.pos n) = n
positive_part (ℤ.negsuc n) = 0

abbrev pub equalz : ℤ → ℤ → Bool
equalz (ℤ.pos m) (ℤ.pos n) = m == n
equalz (ℤ.negsuc m) (ℤ.negsuc n) = m == n
equalz _ _ = false

abbrev pub leqz : ℤ → ℤ → Bool
leqz (ℤ.pos m) (ℤ.pos n) = leb m n
leqz (ℤ.negsuc m) (ℤ.negsuc n) = leb n m
leqz (ℤ.pos m) (ℤ.negsuc n) = false
leqz (ℤ.negsuc m) (ℤ.pos n) = true

-- Conversions: to an unsigned integer of `w` bits, and to a signed one of `w + 1` bits.
abbrev pub to_unsigned : ℕ → ℤ → ℕ
to_unsigned w (ℤ.pos n) = n % 2 ^ w
to_unsigned w (ℤ.negsuc n) = 2 ^ w - 1 - n % 2 ^ w

abbrev pub to_signed : ℕ → ℕ → ℤ
to_signed w n =
    let low : ℕ = n % 2 ^ (w + 1) in
    if ltb low (2 ^ w) then ℤ.pos low else ℤ.negsuc (2 ^ (w + 1) - 1 - low)
