-- ===== src/Config/Text.antt =====
-- The text that the configuration client writes and reads, as the list of its bytes: decimal
-- numbers, and `find`, `isspace` and `strtoll` of the C and C++ libraries. A position in a text is
-- what follows it.
use afi920_ros2_driver.Base.{
  ltb, leb, ◌==◌, if◌then◌else◌, ℤ, pos, negsuc, ℕ, zero, suc, ◌+◌, ◌-◌, ◌*◌, ◌/◌, ◌%◌, ◌^◌, min,
  Bool, true, false, not, ◌&&◌, ◌||◌, Option, none, some, List, [], ◌∷◌, ◌++◌,
}
use afi920_ros2_driver.Transport.Tcp.{int_of}
pub mod Numbers
use Prim.Native.Char.{code}
use Prim.Native.String.{String}

abbrev pub codes : String → List ℕ
codes String.[] = []
codes (String.◌∷◌ c s) = code c ∷ codes s

-- `std::to_string`, for numbers below 10^20.
unfoldable pub decimal : ℕ → ℕ → List ℕ
decimal zero n = []
decimal (suc fuel) n =
    let before = decimal fuel (n / 10) in (if ltb n 10 then [] else before) ++ (b'0' + n % 10) ∷ []

unfoldable pub to_string : ℕ → List ℕ
unfolding decimal
to_string n = decimal 20 n

unfoldable pub starts_with : List ℕ → List ℕ → Bool
starts_with [] text = true
starts_with (c ∷ needle) [] = false
starts_with (c ∷ needle) (d ∷ text) = c == d && starts_with needle text

-- The text from the first place where the other stands.
unfoldable pub find_text : List ℕ → List ℕ → Option (List ℕ)
unfolding starts_with
find_text needle [] = if starts_with needle [] then some [] else none
find_text needle (c ∷ text) =
    let rest = find_text needle text in
    if starts_with needle (c ∷ text) then some (c ∷ text) else rest

abbrev pub is_space : ℕ → Bool
is_space c = c == 32 || (leb 9 c && leb c 13)

unfoldable pub skip_spaces : List ℕ → List ℕ
skip_spaces [] = []
skip_spaces (c ∷ text) = if is_space c then skip_spaces text else c ∷ text

abbrev pub is_digit : ℕ → Bool
is_digit c = leb b'0' c && leb c b'9'

-- The number that the digits at the front spell, after `n`.
unfoldable pub read_digits : ℕ → List ℕ → ℕ
read_digits n [] = n
read_digits n (c ∷ text) =
    let rest = read_digits (n * 10 + (c - b'0')) text in if is_digit c then rest else n

abbrev pub starts_with_digit : List ℕ → Bool
starts_with_digit [] = false
starts_with_digit (c ∷ text) = is_digit c

-- -n
abbrev pub negative : ℕ → ℤ
negative zero = pos 0
negative (suc n) = negsuc n

-- The digits after a sign; there is no number without one digit, and a number out of range is the
-- nearest one in range.
unfoldable pub signed_digits : Bool → List ℕ → Option ℤ
unfolding read_digits
signed_digits minus text =
    let n = read_digits 0 text in
    if not (starts_with_digit text)
    then none
    else (if minus then some (negative (min n (2 ^ 63))) else some (pos (min n (2 ^ 63 - 1))))

unfoldable pub after_spaces : List ℕ → Option ℤ
unfolding signed_digits
after_spaces [] = none
after_spaces (c ∷ text) =
    if c == b'-'
    then signed_digits true text
    else (if c == b'+' then signed_digits false text else signed_digits false (c ∷ text))

-- `std::strtoll(text, &end, 10)`; nothing where `end` stays at the beginning.
unfoldable pub strtoll : List ℕ → Option ℤ
unfolding after_spaces skip_spaces
strtoll text = after_spaces (skip_spaces text)

-- `static_cast<int>` of an `int64_t`.
unfoldable pub int_of_long : ℤ → ℤ
unfolding int_of
int_of_long (pos n) = int_of n
int_of_long (negsuc n) = int_of (2 ^ 64 - (n + 1))
