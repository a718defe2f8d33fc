-- ===== src/Wire.antt =====
-- include/afi920_driver/parsers/endian_util.hpp, and the pack helpers of interface/bts_iso23150.h.
-- A pointer is the list of the bytes from there on, `p + n` is `drop n p`, and a byte is a number
-- below 256. A packed integer is the list of the bytes that the helper stores.
pub mod Total
pub mod RoundTrip
use afi920_ros2_driver.Base.{ℕ, ◌+◌, ◌*◌, ◌/◌, ◌%◌, ◌^◌, ◌<◌, bit_and, bit_or, List, [], ◌∷◌}
use afi920_ros2_driver.Base.{Access, ok, ◌>>=◌, byte_at}

abbrev pub IsByte : ℕ → Type 0
IsByte b = b < 256

-- `static_cast<uint32_t>(x) << k` and `static_cast<uint64_t>(x) << k`
abbrev pub shl32 : ℕ → ℕ → ℕ
shl32 x k = x * 2 ^ k % 2 ^ 32

abbrev pub shl64 : ℕ → ℕ → ℕ
shl64 x k = x * 2 ^ k % 2 ^ 64

-- The expressions of the unpack helpers, over the bytes that they read.
unfoldable pub join_be16 : ℕ → ℕ → ℕ
join_be16 a b = bit_or (a * 2 ^ 8) b % 2 ^ 16

unfoldable pub join_be32 : ℕ → ℕ → ℕ → ℕ → ℕ
join_be32 a b c d = bit_or (bit_or (bit_or (shl32 a 24) (shl32 b 16)) (shl32 c 8)) d

unfoldable pub join_le16 : ℕ → ℕ → ℕ
join_le16 a b = bit_or a (b * 2 ^ 8) % 2 ^ 16

unfoldable pub join_le32 : ℕ → ℕ → ℕ → ℕ → ℕ
join_le32 a b c d = bit_or (bit_or (bit_or a (shl32 b 8)) (shl32 c 16)) (shl32 d 24)

unfoldable pub join_le64 : ℕ → ℕ → ℕ → ℕ → ℕ → ℕ → ℕ → ℕ → ℕ
join_le64 a b c d e f g h =
    bit_or
      (bit_or
        (bit_or
          (bit_or (bit_or (bit_or (bit_or a (shl64 b 8)) (shl64 c 16)) (shl64 d 24)) (shl64 e 32))
          (shl64 f 40))
        (shl64 g 48))
      (shl64 h 56)

unfoldable pub unpack_be16 : List ℕ → Access ℕ
unpack_be16 p = do a ← byte_at p 0; b ← byte_at p 1; ok (join_be16 a b)

unfoldable pub unpack_be32 : List ℕ → Access ℕ
unpack_be32 p = do
  a ← byte_at p 0
  b ← byte_at p 1
  c ← byte_at p 2
  d ← byte_at p 3
  ok (join_be32 a b c d)

unfoldable pub unpack_le16 : List ℕ → Access ℕ
unpack_le16 p = do a ← byte_at p 0; b ← byte_at p 1; ok (join_le16 a b)

unfoldable pub unpack_le32 : List ℕ → Access ℕ
unpack_le32 p = do
  a ← byte_at p 0
  b ← byte_at p 1
  c ← byte_at p 2
  d ← byte_at p 3
  ok (join_le32 a b c d)

unfoldable pub unpack_le64 : List ℕ → Access ℕ
unpack_le64 p = do
  a ← byte_at p 0
  b ← byte_at p 1
  c ← byte_at p 2
  d ← byte_at p 3
  e ← byte_at p 4
  f ← byte_at p 5
  g ← byte_at p 6
  h ← byte_at p 7
  ok (join_le64 a b c d e f g h)

-- A `float` is its bit pattern: `memcpy` keeps the bits.
unfoldable pub unpack_le_f32 : List ℕ → Access ℕ
unfolding unpack_le32
unpack_le_f32 p = do u ← unpack_le32 p; ok u

-- `(uint8_t)((v >> k) & 0xFF)`
abbrev pub byte_of : ℕ → ℕ → ℕ
byte_of v k = bit_and (v / 2 ^ k) 0xff % 256

unfoldable pub pack_be16 : ℕ → List ℕ
pack_be16 v = byte_of v 8 ∷ byte_of v 0 ∷ []

unfoldable pub pack_be32 : ℕ → List ℕ
pack_be32 v = byte_of v 24 ∷ byte_of v 16 ∷ byte_of v 8 ∷ byte_of v 0 ∷ []

unfoldable pub pack_le16 : ℕ → List ℕ
pack_le16 v = byte_of v 0 ∷ byte_of v 8 ∷ []

unfoldable pub pack_le32 : ℕ → List ℕ
pack_le32 v = byte_of v 0 ∷ byte_of v 8 ∷ byte_of v 16 ∷ byte_of v 24 ∷ []

unfoldable pub pack_le64 : ℕ → List ℕ
pack_le64 v =
    byte_of v 0
    ∷ byte_of v 8
    ∷ byte_of v 16
    ∷ byte_of v 24
    ∷ byte_of v 32
    ∷ byte_of v 40
    ∷ byte_of v 48
    ∷ byte_of v 56
    ∷ []

-- `bts_pack_u64` of a big-endian build.
unfoldable pub pack_be64 : ℕ → List ℕ
pack_be64 v =
    byte_of v 56
    ∷ byte_of v 48
    ∷ byte_of v 40
    ∷ byte_of v 32
    ∷ byte_of v 24
    ∷ byte_of v 16
    ∷ byte_of v 8
    ∷ byte_of v 0
    ∷ []
