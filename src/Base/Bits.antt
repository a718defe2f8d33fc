-- ===== src/Base/Bits.antt =====
-- The bit operations at variables: `|` of disjoint fields, `&` with a mask of low bits, and `^`.
mod Digits
use Digits.{bit_and_digit, bit_or_digit, bit_xor_digit}
use Prim.Native.Nat.{ℕ, zero, suc, ◌+◌, ◌*◌, ◌/◌, ◌%◌, ◌^◌, ◌≤◌, ◌<◌, bit_and, bit_or, bit_xor}
use Prim.Native.Nat.{bit_or-bitwise, bit_xor-bitwise}
use mathlib.Core.Path.{◌≡◌, refl, ap, ◌∙◌, sym}
use native.Mathlib.Nat.{
  pow-suc, one-le-pow, mod-lt, mod-eq_of_lt, mul-add-mod_self_right, div-add-mod',
}
use native.Mathlib.Omega.{arith}

bit_or-zero_upto : (n a : ℕ) → a ≤ n → bit_or a 0 ≡ a
bit_or-zero_upto n zero h = refl
bit_or-zero_upto zero (suc a) h = absurd (omega arith)
bit_or-zero_upto (suc n) (suc a) h =
    omega (arith, bit_or_digit (suc a) 0, bit_or-zero_upto n (suc a / 2) (omega arith))

bit_and-zero_upto : (n a : ℕ) → a ≤ n → bit_and a 0 ≡ 0
bit_and-zero_upto n zero h = refl
bit_and-zero_upto zero (suc a) h = absurd (omega arith)
bit_and-zero_upto (suc n) (suc a) h =
    omega (arith, bit_and_digit (suc a) 0, bit_and-zero_upto n (suc a / 2) (omega arith))

bit_or-zero : (a : ℕ) → bit_or a 0 ≡ a
bit_or-zero a = bit_or-zero_upto a a (omega arith)

zero-bit_or : (a : ℕ) → bit_or 0 a ≡ a
zero-bit_or a = bit_or-bitwise 0 a

shift_once : (q k : ℕ) → q * 2 ^ suc k ≡ q * 2 ^ k * 2
shift_once q k = omega (arith, ap (λ (t : ℕ). q * t) (pow-suc 2 k))

-- `r | (q << k)` is a sum where `r` fits in `k` bits.
pub bit_or_high : (k q r : ℕ) → r < 2 ^ k → bit_or r (q * 2 ^ k) ≡ r + q * 2 ^ k
bit_or_high zero q zero h = ground (arith, zero-bit_or (q * 1))
bit_or_high zero q (suc r) h = absurd (omega arith)
bit_or_high (suc k) q r h = ground (
  arith,
  shift_once q k,
  bit_or_digit r (q * 2 ^ suc k),
  pow-suc 2 k,
  bit_or_high k q (r / 2) (omega (arith, pow-suc 2 k)),
)

-- So is `(q << k) | r`.
pub bit_or_low : (k q r : ℕ) → r < 2 ^ k → bit_or (q * 2 ^ k) r ≡ q * 2 ^ k + r
bit_or_low zero q zero h = ground (arith, bit_or-zero (q * 1))
bit_or_low zero q (suc r) h = absurd (omega arith)
bit_or_low (suc k) q r h = ground (
  arith,
  shift_once q k,
  bit_or_digit (q * 2 ^ suc k) r,
  pow-suc 2 k,
  bit_or_low k q (r / 2) (omega (arith, pow-suc 2 k)),
)

-- `2 ^ k - 1`
abbrev pub ones : ℕ → ℕ
ones zero = 0
ones (suc k) = ones k * 2 + 1

-- The remainder by `2 ^ (k + 1)` from that of the upper digits.
mod_double : (a k : ℕ) → a % 2 ^ suc k ≡ a / 2 % 2 ^ k * 2 + a % 2
mod_double a k =
    ap (λ (t : ℕ). t % 2 ^ suc k) (sym whole)
    ∙ mul-add-mod_self_right (a / 2 / 2 ^ k) (2 ^ suc k) _
    ∙ mod-eq_of_lt bound
  where
    bound : a / 2 % 2 ^ k * 2 + a % 2 < 2 ^ suc k
    bound = omega (arith, pow-suc 2 k, one-le-pow k 2, mod-lt (a / 2) {m = 2 ^ k})

    whole : a / 2 / 2 ^ k * 2 ^ suc k + (a / 2 % 2 ^ k * 2 + a % 2) ≡ a
    whole = omega (arith, shift_once (a / 2 / 2 ^ k) k, div-add-mod' (a / 2) (2 ^ k))

-- `a & (2 ^ k - 1)` is the remainder by `2 ^ k`.
pub bit_and-ones : (k a : ℕ) → bit_and a (ones k) ≡ a % 2 ^ k
bit_and-ones zero a = omega (arith, bit_and-zero_upto a a (omega arith))
bit_and-ones (suc k) a =
    ground (arith, bit_and_digit a (ones k * 2 + 1), bit_and-ones k (a / 2), mod_double a k)

-- `a & 0x20` is bit 5 of `a`, at its place.
pub bit_and_32 : (a : ℕ) → bit_and a 0x20 ≡ a / 2 ^ 5 % 2 * 2 ^ 5
bit_and_32 a = omega (
  arith,
  bit_and_digit a 32,
  bit_and_digit (a / 2) 16,
  bit_and_digit (a / 2 / 2) 8,
  bit_and_digit (a / 2 / 2 / 2) 4,
  bit_and_digit (a / 2 / 2 / 2 / 2) 2,
  bit_and-ones 1 (a / 2 / 2 / 2 / 2 / 2),
)

-- `^` stays within `k` bits.
pub bit_xor-lt : (k a b : ℕ) → a < 2 ^ k → b < 2 ^ k → bit_xor a b < 2 ^ k
bit_xor-lt zero zero zero h j = omega (arith, bit_xor-bitwise 0 0)
bit_xor-lt zero zero (suc b) h j = absurd (omega arith)
bit_xor-lt zero (suc a) b h j = absurd (omega arith)
bit_xor-lt (suc k) a b h j = omega (
  arith,
  pow-suc 2 k,
  bit_xor_digit a b,
  bit_xor-lt k (a / 2) (b / 2) (omega (arith, pow-suc 2 k)) (omega (arith, pow-suc 2 k)),
)

-- Bit `k` of `a ^ b` is set where it is the top bit of `b` and above all bits of `a`.
pub le-bit_xor : (k a b : ℕ) → a < 2 ^ k → 2 ^ k ≤ b → 2 ^ k ≤ bit_xor a b
le-bit_xor zero zero b h j = omega (arith, bit_xor-bitwise 0 b)
le-bit_xor zero (suc a) b h j = absurd (omega arith)
le-bit_xor (suc k) a b h j = omega (
  arith,
  pow-suc 2 k,
  bit_xor_digit a b,
  le-bit_xor k (a / 2) (b / 2) (omega (arith, pow-suc 2 k)) (omega (arith, pow-suc 2 k)),
)

-- `^ c` can be undone.
pub bit_xor_cancel : (k a b c : ℕ) → a < 2 ^ k → b < 2 ^ k → bit_xor a c ≡ bit_xor b c → a ≡ b
bit_xor_cancel zero a b c h j e = omega arith
bit_xor_cancel (suc k) a b c h j e = omega (
  arith,
  pow-suc 2 k,
  bit_xor_digit a c,
  bit_xor_digit b c,
  bit_xor_cancel k (a / 2) (b / 2) (c / 2) (omega (arith, pow-suc 2 k)) (omega (arith, pow-suc 2 k))
      (omega (arith, bit_xor_digit a c, bit_xor_digit b c)),
)

-- So can `c ^`.
pub bit_xor_cancel_left : (k a b c : ℕ) → a < 2 ^ k → b < 2 ^ k → bit_xor c a ≡ bit_xor c b → a ≡ b
bit_xor_cancel_left zero a b c h j e = omega arith
bit_xor_cancel_left (suc k) a b c h j e = omega (
  arith,
  pow-suc 2 k,
  bit_xor_cancel_left k (a / 2) (b / 2) (c / 2) (omega (arith, pow-suc 2 k))
      (omega (arith, pow-suc 2 k)) (omega (arith, bit_xor_digit c a, bit_xor_digit c b)),
  bit_xor_digit c a,
  bit_xor_digit c b,
)
