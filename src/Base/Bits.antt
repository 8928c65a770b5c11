-- ===== src/Base/Bits.antt =====
-- The bits of natural numbers under `&`, `|` and `& ~`, for tests of status words.
use Prim.Native.Nat.{
  ℕ, zero, suc, ◌+◌, ◌-◌, ◌*◌, ◌/◌, ◌%◌, ◌^◌, ◌≤◌, min, max, bit_and, bit_or, digits, bitwise,
  bit_and-bitwise, bit_or-bitwise,
}
use native.Mathlib.Nat.{pow-succ'}
use mathlib.Core.Path.{◌≡◌, refl, ap, ◌∙◌}
use native.Mathlib.Omega.{arith}
use libpagekite.Base.Tests.{◌==◌, if◌then◌else◌}

-- The k-th bit, 0 or 1.
unfoldable pub bit : ℕ → ℕ → ℕ
bit zero n = n % 2
bit (suc k) n = bit k (n / 2)

-- An operation on digits takes the lowest digit and the rest apart, if it does so at 0.
module _ (z : ℕ → ℕ) (op : ℕ → ℕ → ℕ) where
  digits_same : (m n a b : ℕ) → a ≤ m → a ≤ n → digits z op m a b ≡ digits z op n a b
  digits_same zero zero a b p q = refl
  digits_same zero (suc n) zero b p q = refl
  digits_same (suc m) zero zero b p q = refl
  digits_same (suc m) (suc n) zero b p q = refl
  digits_same zero n (suc a) b p q = absurd (omega arith)
  digits_same (suc m) zero (suc a) b p q = absurd (omega arith)
  digits_same (suc m) (suc n) (suc a) b p q =
      omega (arith, digits_same m n (suc a / 2) (b / 2) (omega arith) (omega arith))

  bitwise_step :
      ((b : ℕ) → z b ≡ z (b / 2) * 2 + op 0 (b % 2))
      → (a b : ℕ) → bitwise z op a b ≡ bitwise z op (a / 2) (b / 2) * 2 + op (a % 2) (b % 2)
  bitwise_step h zero b = h b
  bitwise_step h (suc a) b =
      omega (arith, digits_same a (suc a / 2) (suc a / 2) (b / 2) (omega arith) (omega arith))

and_step : (a b : ℕ) → bit_and a b ≡ bit_and (a / 2) (b / 2) * 2 + min (a % 2) (b % 2)
and_step a b = omega (
  arith,
  bitwise_step (λ _. 0) min (λ b. omega arith) a b,
  bit_and-bitwise a b,
  bit_and-bitwise (a / 2) (b / 2),
)

or_step : (a b : ℕ) → bit_or a b ≡ bit_or (a / 2) (b / 2) * 2 + max (a % 2) (b % 2)
or_step a b = omega (
  arith,
  bitwise_step (λ b. b) max (λ b. omega arith) a b,
  bit_or-bitwise a b,
  bit_or-bitwise (a / 2) (b / 2),
)

pub bit-bit_and : (k a b : ℕ) → bit k (bit_and a b) ≡ min (bit k a) (bit k b)
unfolding bit
bit-bit_and zero a b = omega (arith, and_step a b)
bit-bit_and (suc k) a b =
    let half : bit_and a b / 2 ≡ bit_and (a / 2) (b / 2) = omega (arith, and_step a b) in
    rw half (bit-bit_and k (a / 2) (b / 2))

pub bit-bit_or : (k a b : ℕ) → bit k (bit_or a b) ≡ max (bit k a) (bit k b)
unfolding bit
bit-bit_or zero a b = omega (arith, or_step a b)
bit-bit_or (suc k) a b =
    let half : bit_or a b / 2 ≡ bit_or (a / 2) (b / 2) = omega (arith, or_step a b) in
    rw half (bit-bit_or k (a / 2) (b / 2))

bit_and-le : (n a b : ℕ) → a ≤ n → bit_and a b ≤ a
bit_and-le n zero b h = omega (arith, bit_and-bitwise 0 b)
bit_and-le zero (suc a) b h = absurd (omega arith)
bit_and-le (suc n) (suc a) b h =
    omega (arith, and_step (suc a) b, bit_and-le n (suc a / 2) (b / 2) (omega arith))

-- a & ~b
pub bit-clear : (k a b : ℕ) → bit k (a - bit_and a b) ≡ bit k a - bit k b
unfolding bit
bit-clear zero a b = omega (arith, and_step a b, bit_and-le (a / 2) (a / 2) (b / 2) (omega arith))
bit-clear (suc k) a b =
    let half : (a - bit_and a b) / 2 ≡ a / 2 - bit_and (a / 2) (b / 2) =
      omega (arith, and_step a b, bit_and-le (a / 2) (a / 2) (b / 2) (omega arith)) in
    rw half (bit-clear k (a / 2) (b / 2))

and_zero : (n a : ℕ) → a ≤ n → bit_and a 0 ≡ 0
and_zero n zero h = refl
and_zero zero (suc a) h = absurd (omega arith)
and_zero (suc n) (suc a) h = omega (arith, and_step (suc a) 0, and_zero n (suc a / 2) (omega arith))

-- A mask of one bit.
pub bit_and-bit : (k a : ℕ) → bit_and a (2 ^ k) ≡ 2 ^ k * bit k a
unfolding bit
bit_and-bit zero a = omega (arith, and_step a 1, and_zero (a / 2) (a / 2) (omega arith))
bit_and-bit (suc k) a =
    let double : 2 ^ suc k ≡ 2 * 2 ^ k = pow-succ' 2 k in
    let half : bit_and (a / 2) (2 * 2 ^ k / 2) ≡ bit_and (a / 2) (2 ^ k) =
      ap (λ m. bit_and (a / 2) m) (omega arith) in
    let product : 2 * 2 ^ k * bit k (a / 2) ≡ 2 * (2 ^ k * bit k (a / 2)) = grind arith in
    rw double (omega (arith, and_step a (2 * 2 ^ k), half, product, bit_and-bit k (a / 2)))

pub bit-le_one : (k n : ℕ) → bit k n ≤ 1
unfolding bit
bit-le_one zero n = omega arith
bit-le_one (suc k) n = bit-le_one k (n / 2)

pow_pos : (k : ℕ) → 1 ≤ 2 ^ k
pow_pos zero = omega arith
pow_pos (suc k) = rw (pow-succ' 2 k) (omega (arith, pow_pos k))

-- The test of a mask of one bit.
pub bit_and-test : (k a : ℕ) → (bit_and a (2 ^ k) == 0) ≡ (bit k a == 0)
bit_and-test k a = rw (bit_and-bit k a) (product (bit k a) (bit-le_one k a))
  where
    product : (b : ℕ) → b ≤ 1 → (2 ^ k * b == 0) ≡ (b == 0)
    product zero h = ground arith
    product (suc b) h = let e : b ≡ 0 = omega arith in rw e (ground (arith, pow_pos k))

-- A mask of one bit has that bit.
pub bit-pow : (k j : ℕ) → bit k (2 ^ j) ≡ (if k == j then 1 else 0)
unfolding bit
bit-pow zero zero = refl
bit-pow zero (suc j) = rw (pow-succ' 2 j) (grind arith)
bit-pow (suc k) zero = rw (bit-zero k) (ground arith)
  where
    bit-zero : (k : ℕ) → bit k 0 ≡ 0
    bit-zero zero = refl
    bit-zero (suc k) = bit-zero k
bit-pow (suc k) (suc j) =
    let half : 2 ^ suc j / 2 ≡ 2 ^ j = rw (pow-succ' 2 j) (omega arith) in
    rw half (bit-pow k j ∙ ground arith)
