-- ===== src/Builder/Floats.antt =====
-- What the code does with a `float` and a `double`, by their bits in the format of IEEE 754: the
-- comparisons, and the conversions that are exact. A number that is not a number compares with nothing.
use afi920_ros2_driver.Base.{
  ltb, leb, ◌==◌, if◌then◌else◌, ℕ, zero, suc, ◌+◌, ◌-◌, ◌*◌, ◌/◌, ◌%◌, ◌^◌, Bool, not, ◌&&◌,
}

-- The exponent of the leading bit, for numbers below 2^64.
unfoldable pub leading : ℕ → ℕ → ℕ
leading zero n = 0
leading (suc fuel) n = let rest = leading fuel (n / 2) in if ltb n 2 then 0 else suc rest

unfoldable pub leading_bit : ℕ → ℕ
unfolding leading
leading_bit n = leading 64 n

-- `static_cast<float>(n)` and `static_cast<double>(n)` of an integer below 2^24.
unfoldable pub float_of : ℕ → ℕ
unfolding leading_bit
float_of n =
    let e = leading_bit n in if n == 0 then 0 else (127 + e) * 2 ^ 23 + (n - 2 ^ e) * 2 ^ (23 - e)

unfoldable pub double_of : ℕ → ℕ
unfolding leading_bit
double_of n =
    let e = leading_bit n in if n == 0 then 0 else (1023 + e) * 2 ^ 52 + (n - 2 ^ e) * 2 ^ (52 - e)

-- A `float` as a `double`: its sign, its exponent and its fraction.
unfoldable pub double_of_float : ℕ → ℕ
unfolding leading_bit
double_of_float w =
    let sign = w / 2 ^ 31 * 2 ^ 63 in
    let exponent = w / 2 ^ 23 % 2 ^ 8 in
    let fraction = w % 2 ^ 23 in
    let e = leading_bit fraction in
    sign
    + (if exponent == 0
        then (if fraction == 0 then 0 else (e + 874) * 2 ^ 52 + (fraction - 2 ^ e) * 2 ^ (52 - e))
        else (if exponent == 255
            then 2047 * 2 ^ 52 + fraction * 2 ^ 29
            else (exponent + 896) * 2 ^ 52 + fraction * 2 ^ 29))

abbrev pub magnitude : ℕ → ℕ
magnitude d = d % 2 ^ 63

abbrev pub is_minus : ℕ → Bool
is_minus d = leb (2 ^ 63) d

unfoldable pub is_nan : ℕ → Bool
is_nan d = ltb (2047 * 2 ^ 52) (magnitude d)

-- `a < b` on doubles; the two zeros are equal.
unfoldable pub less : ℕ → ℕ → Bool
unfolding is_nan
less a b =
    not (is_nan a)
    && not (is_nan b)
    && (if is_minus a
        then (if is_minus b
            then ltb (magnitude b) (magnitude a)
            else ltb 0 (magnitude a + magnitude b))
        else not (is_minus b) && ltb (magnitude a) (magnitude b))

-- What is left to the processor and to the library of C: the product of two floats, and the two
-- functions of `<cmath>`, on bits.
pub record Maths : Type 0 where
  pub times : ℕ → ℕ → ℕ
  pub cos : ℕ → ℕ
  pub sin : ℕ → ℕ
