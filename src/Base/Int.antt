-- ===== src/Base/Int.antt =====
-- C's signed integers: the integers over the native numbers, and the wrap to 32 and 64 bits.
use Prim.Native.Nat.{ℕ, suc, ◌+◌, ◌-◌, ◌%◌, ◌^◌, ◌≤◌, ◌<◌}
use mathlib.Core.Path.{◌≡◌}
use mathlib.Core.Bool.{Bool, true, false}
use native.Mathlib.Omega.{arith}
use libpagekite.Base.Tests.{ltb, leb, if◌then◌else◌}

-- `negsuc n` is -(n + 1).
pub data ℤ : Type 0 where
  pos : ℕ → ℤ
  negsuc : ℕ → ℤ

abbrev pub minus_one : ℤ
minus_one = negsuc 0

abbrev pub pos_part : ℤ → ℕ
pos_part (pos n) = n
pos_part (negsuc n) = 0

-- a - b, as an integer.
abbrev pub sub_ℕ : ℕ → ℕ → ℤ
sub_ℕ a b = if leb b a then pos (a - b) else negsuc (b - a - 1)

infixl 65 ◌+ℤ◌ ◌-ℤ◌
abbrev pub ◌+ℤ◌ : ℤ → ℤ → ℤ
pos a +ℤ pos b = pos (a + b)
pos a +ℤ negsuc b = sub_ℕ a (suc b)
negsuc a +ℤ pos b = sub_ℕ b (suc a)
negsuc a +ℤ negsuc b = negsuc (suc (a + b))

abbrev pub ◌-ℤ◌ : ℤ → ℤ → ℤ
pos a -ℤ pos b = sub_ℕ a b
pos a -ℤ negsuc b = pos (a + suc b)
negsuc a -ℤ pos b = negsuc (a + b)
negsuc a -ℤ negsuc b = sub_ℕ b a

abbrev pub ltb_ℤ : ℤ → ℤ → Bool
ltb_ℤ (pos a) (pos b) = ltb a b
ltb_ℤ (pos a) (negsuc b) = false
ltb_ℤ (negsuc a) (pos b) = true
ltb_ℤ (negsuc a) (negsuc b) = ltb b a

-- The value of a w-bit pattern, two's complement, for 2 * half = 2 ^ w.
abbrev pub signed : ℕ → ℕ → ℤ
signed half p = if ltb p half then pos p else negsuc (half + half - 1 - p)

-- A conversion to `int`, and to `long` or `ssize_t`.
unfoldable pub to_int : ℤ → ℤ
to_int (pos n) = signed (2 ^ 31) (n % 2 ^ 32)
to_int (negsuc n) = signed (2 ^ 31) (2 ^ 32 - 1 - n % 2 ^ 32)

unfoldable pub to_long : ℕ → ℤ
to_long n = signed (2 ^ 63) (n % 2 ^ 64)

pub to_int-small : (n : ℕ) → n < 2 ^ 31 → to_int (pos n) ≡ pos n
unfolding to_int
to_int-small n h = ground arith

pub to_int-small_neg : (n : ℕ) → n < 2 ^ 31 → to_int (negsuc n) ≡ negsuc n
unfolding to_int
to_int-small_neg n h = ground arith

pub to_long-small : (n : ℕ) → n < 2 ^ 63 → to_long n ≡ pos n
unfolding to_long
to_long-small n h = ground arith

-- Where a conversion of a number gives a number, it is no larger.
pub to_int-pos_le : (n m : ℕ) → to_int (pos n) ≡ pos m → m ≤ n
unfolding to_int
to_int-pos_le n m h = ground arith
