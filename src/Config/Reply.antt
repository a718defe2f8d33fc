-- ===== src/Config/Reply.antt =====
-- The reply of the sensor.
use afi920_ros2_driver.Base.{
  ltb, ◌==◌, ◌!=◌, if◌then◌else◌, lt→ltb, le→ltb, Bool-cases, ℤ, pos, negsuc, get_or, ℕ, ◌-◌, ◌%◌,
  ◌^◌, ◌<◌, bit_and, ◌≡◌, refl, ap, inl, inr, false, some, List, [], ◌∷◌, ◌++◌, arith,
}
use native.Mathlib.Decide.{dec_lt}
use afi920_ros2_driver.Config.Text.Numbers.{strtoll-to_string}
use afi920_ros2_driver.Transport.Tcp.{int_of}
use afi920_ros2_driver.Config.{
  parse_json_return_code, check_response, to_string, find_text, msg_type_response, number_after,
  int_of_long,
}
use afi920_ros2_driver.Config.Text.{
  skip_spaces, strtoll, codes, is_space, after_spaces, to_string, find_text, starts_with,
  starts_with_digit, int_of_long,
}

skip_spaces_idem : (text : List ℕ) → skip_spaces (skip_spaces text) ≡ skip_spaces text
unfolding skip_spaces
skip_spaces_idem [] = refl
skip_spaces_idem (c ∷ text) = elim (Bool-cases (is_space c)) [
  | inl e ↦ rw e (skip_spaces_idem text)
  | inr e ↦ rw (e, e) refl
]

strtoll-skip_spaces : (text : List ℕ) → strtoll (skip_spaces text) ≡ strtoll text
unfolding strtoll
strtoll-skip_spaces text = ap after_spaces (skip_spaces_idem text)

-- An object with the return code as its first member.
abbrev pub reply : ℕ → List ℕ → List ℕ
reply n rest = codes "{\"return_code\":" ++ to_string n ++ rest

-- A printed return code is read as the `int` that its low 32 bits are.
parse_json_return_code-reply :
    (n : ℕ) (rest : List ℕ)
    → n < 2 ^ 63
    → starts_with_digit rest ≡ false
    → parse_json_return_code (reply n rest) ≡ some (int_of n)
unfolding parse_json_return_code find_text starts_with number_after int_of_long
parse_json_return_code-reply n rest h d =
    rw (strtoll-skip_spaces (to_string n ++ rest), strtoll-to_string n rest h d) refl

-- The sensor answers with a response whose header reports no error and whose body begins with a
-- printed return code below 2^63: then the configuration fails with -8 unless the code is a multiple
-- of 2^32, zero or not, and succeeds if it is.
pub check_response-reply :
    (hdr : List ℕ) (n : ℕ) (rest : List ℕ)
    → (bit_and (get_or hdr 14 0) msg_type_response == 0) ≡ false
    → get_or hdr 15 0 ≡ 0
    → n < 2 ^ 63
    → starts_with_digit rest ≡ false
    → check_response hdr (reply n rest) ≡ (if n % 2 ^ 32 == 0 then pos 0 else negsuc 7)
unfolding check_response
check_response-reply hdr n rest response good h d =
    rw (response, good, parse_json_return_code-reply n rest h d) (judged (n % 2 ^ 32))
  where
    judged :
        (m : ℕ)
        → elim (if ltb m (2 ^ 31) then pos m else negsuc (2 ^ 32 - m - 1)) as (λ x. ℤ) [
          | pos n' ↦ if n' != 0 then negsuc 7 else pos 0
          | negsuc n' ↦ negsuc 7
        ]
          ≡ (if m == 0 then pos 0 else negsuc 7)
    judged m = elim (dec_lt m (2 ^ 31)) [
      | yes l ↦ rw (lt→ltb m (2 ^ 31) l) (ground arith)
      | no l ↦ rw (le→ltb m (2 ^ 31) (omega arith)) (ground arith)
    ]
