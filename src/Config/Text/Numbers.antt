-- ===== src/Config/Text/Numbers.antt =====
-- A printed number is read back.
use afi920_ros2_driver.Base.{
  ◌==◌, lt→ltb, le→ltb, pos, ℕ, zero, suc, ◌+◌, ◌-◌, ◌*◌, ◌/◌, ◌%◌, ◌^◌, ◌<◌, min, ◌≡◌, refl, sym,
  ap, ◌∙◌, true, false, some, List, [], ◌∷◌, ◌++◌, append_assoc, arith,
}
use afi920_ros2_driver.Config.Text.{
  is_digit, read_digits, decimal, signed_digits, strtoll, to_string, starts_with_digit, skip_spaces,
  after_spaces, is_space,
}
use native.Mathlib.Decide.{dec_lt}

digit_of : (n : ℕ) → is_digit (b'0' + n % 10) ≡ true
digit_of n = ground arith

next_digit :
    (m n : ℕ) (rest : List ℕ)
    → read_digits m ((b'0' + n % 10) ∷ rest) ≡ read_digits (m * 10 + n % 10) rest
unfolding read_digits
next_digit m n rest =
    let e : m * 10 + (b'0' + n % 10 - b'0') ≡ m * 10 + n % 10 = omega arith in
    rw (digit_of n, e) refl

read_digits-decimal :
    (fuel n : ℕ) (rest : List ℕ)
    → n < 10 ^ fuel
    → read_digits 0 (decimal fuel n ++ rest) ≡ read_digits n rest
unfolding decimal
read_digits-decimal zero n rest h = let e : n ≡ 0 = omega arith in rw e refl
read_digits-decimal (suc fuel) n rest h = elim (dec_lt n 10) [
  | yes l ↦
      let e : 0 * 10 + n % 10 ≡ n = omega arith in
      rw (lt→ltb n 10 l) (next_digit 0 n rest ∙ ap (λ (k : ℕ). read_digits k rest) e)
  | no l ↦
      let e : n / 10 * 10 + n % 10 ≡ n = omega arith in
      rw
        (
          le→ltb n 10 (omega arith),
          append_assoc (decimal fuel (n / 10)) ((b'0' + n % 10) ∷ []) rest,
        )
        (read_digits-decimal fuel (n / 10) ((b'0' + n % 10) ∷ rest) (omega arith)
          ∙ next_digit (n / 10) n rest
          ∙ ap (λ (k : ℕ). read_digits k rest) e)
]

-- A printed number begins with a digit.
decimal-head :
    (fuel n : ℕ) → (c : ℕ) × (cs : List ℕ) × (decimal (suc fuel) n ≡ c ∷ cs) × (is_digit c ≡ true)
unfolding decimal
decimal-head zero n = elim (dec_lt n 10) [
  | yes l ↦ rw (lt→ltb n 10 l) (_, _, refl, digit_of n)
  | no l ↦ rw (le→ltb n 10 (omega arith)) (_, _, refl, digit_of n)
]
decimal-head (suc fuel) n = elim (dec_lt n 10) [
  | yes l ↦ rw (lt→ltb n 10 l) (_, _, refl, digit_of n)
  | no l ↦
      let (c, cs, e, d) = decimal-head fuel (n / 10) in
      rw (le→ltb n 10 (omega arith))
        (c, cs ++ (b'0' + n % 10) ∷ [], ap (λ (xs : List ℕ). xs ++ (b'0' + n % 10) ∷ []) e, d)
]

signed_digits-value :
    (text : List ℕ) (n : ℕ)
    → starts_with_digit text ≡ true
    → read_digits 0 text ≡ n
    → n < 2 ^ 63
    → signed_digits false text ≡ some (pos n)
unfolding signed_digits
signed_digits-value text n d e h = let m : min n (2 ^ 63 - 1) ≡ n = omega arith in rw (d, e, m) refl

read_digits_end : (n : ℕ) (rest : List ℕ) → starts_with_digit rest ≡ false → read_digits n rest ≡ n
unfolding read_digits
read_digits_end n [] h = refl
read_digits_end n (c ∷ rest) h = rw h refl

digit_first :
    (c : ℕ) (text : List ℕ)
    → is_digit c ≡ true
    → strtoll (c ∷ text) ≡ signed_digits false (c ∷ text)
unfolding strtoll skip_spaces after_spaces
digit_first c text d = let (a, b, e) = parts c d in rw (a, b, e) refl
  where
    parts :
        (c : ℕ)
        → is_digit c ≡ true
        → (is_space c ≡ false) × ((c == b'-') ≡ false) × ((c == b'+') ≡ false)
    parts c d = ground arith

-- What `to_string` prints, `strtoll` reads, whatever follows that is no digit.
pub strtoll-to_string :
    (n : ℕ) (rest : List ℕ)
    → n < 2 ^ 63
    → starts_with_digit rest ≡ false
    → strtoll (to_string n ++ rest) ≡ some (pos n)
unfolding to_string
strtoll-to_string n rest h d =
    let (c, cs, e, f) = decimal-head 19 n in
    let printed : to_string n ++ rest ≡ c ∷ (cs ++ rest) = ap (λ (xs : List ℕ). xs ++ rest) e in
    let value : read_digits 0 (c ∷ (cs ++ rest)) ≡ n =
      ap (read_digits 0) (sym printed)
      ∙ read_digits-decimal 20 n rest (omega arith)
      ∙ read_digits_end n rest d in
    ap strtoll printed
    ∙ digit_first c (cs ++ rest) f
    ∙ signed_digits-value (c ∷ (cs ++ rest)) n f value h
