-- ===== src/Wire/Total.antt =====
-- The unpack helpers where the bytes are there to read.
use afi920_ros2_driver.Base.{ℕ, ◌+◌, ◌*◌, ◌^◌, ◌≤◌, ◌<◌, ◌≡◌, refl}
use afi920_ros2_driver.Base.{bit_or, List, length, get_or, ok, byte_at, byte_at-ok, arith}
use afi920_ros2_driver.Base.Bits.{bit_or_high, bit_or_low}
use afi920_ros2_driver.Wire.{
  IsByte, shl32, shl64, join_be16, join_be32, join_le16, join_le32, join_le64, unpack_be16,
  unpack_be32, unpack_le16, unpack_le32, unpack_le64, unpack_le_f32,
}

-- The values that the helpers return, by the bytes at the pointer.
abbrev pub u8 : List ℕ → ℕ → ℕ
u8 p i = get_or p i 0

abbrev pub le16 : List ℕ → ℕ
le16 p = join_le16 (u8 p 0) (u8 p 1)

abbrev pub le32 : List ℕ → ℕ
le32 p = join_le32 (u8 p 0) (u8 p 1) (u8 p 2) (u8 p 3)

abbrev pub le64 : List ℕ → ℕ
le64 p = join_le64 (u8 p 0) (u8 p 1) (u8 p 2) (u8 p 3) (u8 p 4) (u8 p 5) (u8 p 6) (u8 p 7)

abbrev pub be16 : List ℕ → ℕ
be16 p = join_be16 (u8 p 0) (u8 p 1)

abbrev pub be32 : List ℕ → ℕ
be32 p = join_be32 (u8 p 0) (u8 p 1) (u8 p 2) (u8 p 3)

module _ (p : List ℕ) where
  byte : (i : ℕ) → i < length p → byte_at p i ≡ ok (u8 p i)
  byte = byte_at-ok p

  pub unpack_le16-ok : 2 ≤ length p → unpack_le16 p ≡ ok (le16 p)
  unfolding unpack_le16
  unpack_le16-ok h = rw (byte 0 (omega arith), byte 1 (omega arith))

  pub unpack_le32-ok : 4 ≤ length p → unpack_le32 p ≡ ok (le32 p)
  unfolding unpack_le32
  unpack_le32-ok h =
      rw (byte 0 (omega arith), byte 1 (omega arith), byte 2 (omega arith), byte 3 (omega arith))

  pub unpack_le_f32-ok : 4 ≤ length p → unpack_le_f32 p ≡ ok (le32 p)
  unfolding unpack_le_f32
  unpack_le_f32-ok h = rw (unpack_le32-ok h)

  pub unpack_le64-ok : 8 ≤ length p → unpack_le64 p ≡ ok (le64 p)
  unfolding unpack_le64
  unpack_le64-ok h = rw (
    byte 0 (omega arith),
    byte 1 (omega arith),
    byte 2 (omega arith),
    byte 3 (omega arith),
    byte 4 (omega arith),
    byte 5 (omega arith),
    byte 6 (omega arith),
    byte 7 (omega arith),
  )

  pub unpack_be16-ok : 2 ≤ length p → unpack_be16 p ≡ ok (be16 p)
  unfolding unpack_be16
  unpack_be16-ok h = rw (byte 0 (omega arith), byte 1 (omega arith))

  pub unpack_be32-ok : 4 ≤ length p → unpack_be32 p ≡ ok (be32 p)
  unfolding unpack_be32
  unpack_be32-ok h =
      rw (byte 0 (omega arith), byte 1 (omega arith), byte 2 (omega arith), byte 3 (omega arith))

-- The `|` of shifted bytes is their sum.
pub join_le16_sum : (a b : ℕ) → IsByte a → IsByte b → join_le16 a b ≡ a + b * 2 ^ 8
unfolding join_le16
join_le16_sum a b ha hb = omega (arith, bit_or_high 8 b a ha)

pub join_be16_sum : (a b : ℕ) → IsByte a → IsByte b → join_be16 a b ≡ a * 2 ^ 8 + b
unfolding join_be16
join_be16_sum a b ha hb = omega (arith, bit_or_low 8 a b hb)

-- `|` into the low bits of a multiple of `2 ^ k`.
pub bit_or_below : (k x q r : ℕ) → x ≡ q * 2 ^ k → r < 2 ^ k → bit_or x r ≡ x + r
bit_or_below k x q r e h = rw e (bit_or_low k q r h)

fits32 : (x k : ℕ) → x * 2 ^ k < 2 ^ 32 → shl32 x k ≡ x * 2 ^ k
fits32 x k h = omega arith

pub fits64 : (x k : ℕ) → x * 2 ^ k < 2 ^ 64 → shl64 x k ≡ x * 2 ^ k
fits64 x k h = omega arith

module _ (a b c d : ℕ) (ha : IsByte a) (hb : IsByte b) (hc : IsByte c) (hd : IsByte d) where
  pub join_le32_sum : join_le32 a b c d ≡ a + b * 2 ^ 8 + c * 2 ^ 16 + d * 2 ^ 24
  unfolding join_le32
  join_le32_sum = rw (
    fits32 b 8 (omega arith),
    fits32 c 16 (omega arith),
    fits32 d 24 (omega arith),
    bit_or_high 8 b a (omega arith),
    bit_or_high 16 c (a + b * 2 ^ 8) (omega arith),
    bit_or_high 24 d (a + b * 2 ^ 8 + c * 2 ^ 16) (omega arith),
  )

  pub join_be32_sum : join_be32 a b c d ≡ a * 2 ^ 24 + b * 2 ^ 16 + c * 2 ^ 8 + d
  unfolding join_be32
  join_be32_sum = rw (
    fits32 a 24 (omega arith),
    fits32 b 16 (omega arith),
    fits32 c 8 (omega arith),
    bit_or_below 24 (a * 2 ^ 24) a (b * 2 ^ 16) refl (omega arith),
    bit_or_below 16 (a * 2 ^ 24 + b * 2 ^ 16) (a * 2 ^ 8 + b) (c * 2 ^ 8) (omega arith)
        (omega arith),
    bit_or_below 8 (a * 2 ^ 24 + b * 2 ^ 16 + c * 2 ^ 8) (a * 2 ^ 16 + b * 2 ^ 8 + c) d
        (omega arith) (omega arith),
  )

abbrev pub AreBytes : ℕ → ℕ → ℕ → ℕ → ℕ → ℕ → ℕ → ℕ → Type 0
AreBytes a b c d e f g h =
    IsByte a × IsByte b × IsByte c × IsByte d × IsByte e × IsByte f × IsByte g × IsByte h

module _ (a b c d e f g h : ℕ) (bytes : AreBytes a b c d e f g h) where
  pub join_le64_sum :
      join_le64 a b c d e f g h
      ≡ a + b * 2 ^ 8 + c * 2 ^ 16 + d * 2 ^ 24 + e * 2 ^ 32 + f * 2 ^ 40 + g * 2 ^ 48 + h * 2 ^ 56
  unfolding join_le64
  join_le64_sum =
      let s2 : ℕ = a + b * 2 ^ 8 in
      let s3 : ℕ = s2 + c * 2 ^ 16 in
      let s4 : ℕ = s3 + d * 2 ^ 24 in
      let s5 : ℕ = s4 + e * 2 ^ 32 in
      let s6 : ℕ = s5 + f * 2 ^ 40 in
      let s7 : ℕ = s6 + g * 2 ^ 48 in
      rw (
        fits64 b 8 (omega arith),
        fits64 c 16 (omega arith),
        fits64 d 24 (omega arith),
        fits64 e 32 (omega arith),
        fits64 f 40 (omega arith),
        fits64 g 48 (omega arith),
        fits64 h 56 (omega arith),
        bit_or_high 8 b a (omega arith),
        bit_or_high 16 c s2 (omega arith),
        bit_or_high 24 d s3 (omega arith),
        bit_or_high 32 e s4 (omega arith),
        bit_or_high 40 f s5 (omega arith),
        bit_or_high 48 g s6 (omega arith),
        bit_or_high 56 h s7 (omega arith),
      )
