-- ===== src/Wire/RoundTrip.antt =====
-- What the pack helpers store the unpack helpers read back, whatever follows.
use afi920_ros2_driver.Base.{ok, byte_at, ℕ, ◌/◌, ◌%◌, ◌^◌, ◌<◌, ◌≡◌, ap, ◌∙◌, List, ◌++◌, arith}
use afi920_ros2_driver.Base.Bits.{bit_and-ones}
use afi920_ros2_driver.Wire.{
  IsByte, join_be16, join_be32, join_le16, join_le32, join_le64, unpack_be16, unpack_be32,
  unpack_le16, unpack_le32, unpack_le64, byte_of, pack_be16, pack_be32, pack_le16, pack_le32,
  pack_le64,
}
use afi920_ros2_driver.Wire.Total.{
  join_le16_sum, join_be16_sum, join_le32_sum, join_be32_sum, join_le64_sum,
}

-- The stored byte is a digit to base 256.
pub byte_of-digit : (v k : ℕ) → byte_of v k ≡ v / 2 ^ k % 256
byte_of-digit v k = omega (arith, bit_and-ones 8 (v / 2 ^ k))

pub byte_of-IsByte : (v k : ℕ) → IsByte (byte_of v k)
byte_of-IsByte v k = omega arith

module _ (v : ℕ) where
  pub join_le16_bytes : v < 2 ^ 16 → join_le16 (byte_of v 0) (byte_of v 8) ≡ v
  join_le16_bytes h =
      join_le16_sum _ _ (byte_of-IsByte v 0) (byte_of-IsByte v 8)
      ∙ omega (arith, byte_of-digit v 0, byte_of-digit v 8)

  pub join_be16_bytes : v < 2 ^ 16 → join_be16 (byte_of v 8) (byte_of v 0) ≡ v
  join_be16_bytes h =
      join_be16_sum _ _ (byte_of-IsByte v 8) (byte_of-IsByte v 0)
      ∙ omega (arith, byte_of-digit v 0, byte_of-digit v 8)

  pub join_le32_bytes :
      v < 2 ^ 32 → join_le32 (byte_of v 0) (byte_of v 8) (byte_of v 16) (byte_of v 24) ≡ v
  join_le32_bytes h =
      join_le32_sum _ _ _ _ (byte_of-IsByte v 0) (byte_of-IsByte v 8) (byte_of-IsByte v 16)
        (byte_of-IsByte v 24)
      ∙ omega (arith, byte_of-digit v 0, byte_of-digit v 8, byte_of-digit v 16, byte_of-digit v 24)

  pub join_be32_bytes :
      v < 2 ^ 32 → join_be32 (byte_of v 24) (byte_of v 16) (byte_of v 8) (byte_of v 0) ≡ v
  join_be32_bytes h =
      join_be32_sum _ _ _ _ (byte_of-IsByte v 24) (byte_of-IsByte v 16) (byte_of-IsByte v 8)
        (byte_of-IsByte v 0)
      ∙ omega (arith, byte_of-digit v 0, byte_of-digit v 8, byte_of-digit v 16, byte_of-digit v 24)

  pub join_le64_bytes :
      v < 2 ^ 64
      → join_le64
          (byte_of v 0)
          (byte_of v 8)
          (byte_of v 16)
          (byte_of v 24)
          (byte_of v 32)
          (byte_of v 40)
          (byte_of v 48)
          (byte_of v 56)
        ≡ v
  join_le64_bytes h =
      join_le64_sum _ _ _ _ _ _ _ _ (omega arith)
      ∙ omega (
        arith,
        byte_of-digit v 0,
        byte_of-digit v 8,
        byte_of-digit v 16,
        byte_of-digit v 24,
        byte_of-digit v 32,
        byte_of-digit v 40,
        byte_of-digit v 48,
        byte_of-digit v 56,
      )

pub unpack-pack_be32 :
    (w : ℕ) (rest : List ℕ) → w < 2 ^ 32 → unpack_be32 (pack_be32 w ++ rest) ≡ ok w
unfolding unpack_be32 pack_be32 byte_at
unpack-pack_be32 w rest h = ap ok (join_be32_bytes w h)

-- Every integer of 16, 32 or 64 bits that is packed in little-endian order, and every integer of 16
-- or 32 bits that is packed in big-endian order, is read back, whatever bytes follow it.
pub unpack-pack :
    (h w d : ℕ) (rest : List ℕ)
    → h < 2 ^ 16
    → w < 2 ^ 32
    → d < 2 ^ 64
    → (unpack_le16 (pack_le16 h ++ rest) ≡ ok h)
      × (unpack_le32 (pack_le32 w ++ rest) ≡ ok w)
      × (unpack_le64 (pack_le64 d ++ rest) ≡ ok d)
      × (unpack_be16 (pack_be16 h ++ rest) ≡ ok h)
      × (unpack_be32 (pack_be32 w ++ rest) ≡ ok w)
unfolding unpack_le16 unpack_le32 unpack_le64 unpack_be16 unpack_be32 pack_le16 pack_le32 pack_le64
    pack_be16 pack_be32 byte_at
unpack-pack h w d rest hh hw hd = (
  ap ok (join_le16_bytes h hh),
  ap ok (join_le32_bytes w hw),
  ap ok (join_le64_bytes d hd),
  ap ok (join_be16_bytes h hh),
  ap ok (join_be32_bytes w hw),
)
