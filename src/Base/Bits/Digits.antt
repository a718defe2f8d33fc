-- ===== src/Base/Bits/Digits.antt =====
-- One equation for the lowest binary digit of each native bit operation: the recursion that such an
-- operation stands for, with its fuel removed.
use Prim.Native.Nat.{ℕ, zero, suc, ◌+◌, ◌*◌, ◌/◌, ◌%◌, ◌≤◌, ◌<◌, min, max, bit_and, bit_or, bit_xor}
use Prim.Native.Nat.{digits, bitwise, differ, bit_and-bitwise, bit_or-bitwise, bit_xor-bitwise}
use mathlib.Core.Path.{◌≡◌, refl}
use native.Mathlib.Omega.{arith}

module _ (alone : ℕ → ℕ) (op : ℕ → ℕ → ℕ) where
  -- Enough fuel is as good as any other.
  enough_fuel : (n m a b : ℕ) → a ≤ n → a ≤ m → digits alone op n a b ≡ digits alone op m a b
  enough_fuel zero m (suc a) b h k = absurd (omega arith)
  enough_fuel (suc n) zero (suc a) b h k = absurd (omega arith)
  enough_fuel (suc n) (suc m) (suc a) b h k =
      rw (enough_fuel n m (suc a / 2) (b / 2) (omega arith) (omega arith))
  enough_fuel zero zero zero b h k = refl
  enough_fuel zero (suc m) zero b h k = refl
  enough_fuel (suc n) zero zero b h k = refl
  enough_fuel (suc n) (suc m) zero b h k = refl

  lowest_digit :
      (a b : ℕ)
      → bitwise alone op (suc a) b
        ≡ bitwise alone op (suc a / 2) (b / 2) * 2 + op (suc a % 2) (b % 2)
  lowest_digit a b =
      omega (arith, enough_fuel a (suc a / 2) (suc a / 2) (b / 2) (omega arith) (omega arith))

pub bit_and_digit : (a b : ℕ) → bit_and a b ≡ bit_and (a / 2) (b / 2) * 2 + min (a % 2) (b % 2)
bit_and_digit zero b = simp bit_and-bitwise (omega arith)
bit_and_digit (suc a) b = simp bit_and-bitwise (lowest_digit (λ y. 0) min a b)

pub bit_or_digit : (a b : ℕ) → bit_or a b ≡ bit_or (a / 2) (b / 2) * 2 + max (a % 2) (b % 2)
bit_or_digit zero b = simp bit_or-bitwise (omega arith)
bit_or_digit (suc a) b = simp bit_or-bitwise (lowest_digit (λ y. y) max a b)

-- On two digits `differ` is the sum without its carry.
differ_digits : (x y : ℕ) → x < 2 → y < 2 → differ x y ≡ (x + y) % 2
differ_digits zero y h k = omega arith
differ_digits (suc zero) zero h k = refl
differ_digits (suc zero) (suc zero) h k = refl
differ_digits (suc zero) (suc (suc y)) h k = absurd (omega arith)
differ_digits (suc (suc x)) y h k = absurd (omega arith)

pub bit_xor_digit : (a b : ℕ) → bit_xor a b ≡ bit_xor (a / 2) (b / 2) * 2 + (a + b) % 2
bit_xor_digit zero b = simp bit_xor-bitwise (omega arith)
bit_xor_digit (suc a) b = simp bit_xor-bitwise (
    omega (
      arith,
      lowest_digit (λ y. y) differ a b,
      differ_digits (suc a % 2) (b % 2) (omega arith) (omega arith),
    ))
