-- ===== src/E2e/Detect.antt =====
-- The CRC-64/XZ tells apart messages that differ in one byte.
use afi920_ros2_driver.Base.{All, All-append, ◌≡◌, ◌≢◌, some, [], ◌∷◌, ◌++◌, arith}
use afi920_ros2_driver.E2e.Crc.{
  IsU64, next, next-lt, crc_bytes-lt, crc_bytes-injective, crc_bits-injective,
}
use afi920_ros2_driver.E2e.{
  crc_bytes, e2e_crc64_xz_update, e2e_crc64_xz, e2e_crc64_init, e2e_crc64_xorout, List, ℕ,
}
use afi920_ros2_driver.Wire.{IsByte}
use afi920_ros2_driver.Base.Bits.{bit_xor-lt, bit_xor_cancel, bit_xor_cancel_left}

crc_bytes_detects :
    (crc : ℕ) (front back : List ℕ) (a b : ℕ)
    → IsU64 crc
    → All IsByte front
    → All IsByte back
    → IsByte a
    → IsByte b
    → crc_bytes crc (front ++ a ∷ back) ≡ crc_bytes crc (front ++ b ∷ back)
    → a ≡ b
unfolding crc_bytes
crc_bytes_detects crc [] back a b hc hf hk ha hb e =
    bit_xor_cancel_left 64 a b crc (omega arith) (omega arith) (
      crc_bits-injective 8 _ _ (bit_xor-lt 64 crc a hc (omega arith))
        (bit_xor-lt 64 crc b hc (omega arith))
        (crc_bytes-injective (next crc a) (next crc b) back (next-lt crc a hc ha)
          (next-lt crc b hc hb) hk e))
crc_bytes_detects crc (x ∷ front) back a b hc hf hk ha hb e =
    crc_bytes_detects (next crc x) front back a b (next-lt crc x hc hf.0) hf.1 hk ha hb e

-- Two messages that differ in exactly one byte have different CRCs.
pub e2e_crc64_xz_detects :
    (front back : List ℕ) (a b : ℕ)
    → All IsByte front
    → All IsByte back
    → IsByte a
    → IsByte b
    → a ≢ b
    → e2e_crc64_xz (some (front ++ a ∷ back)) ≢ e2e_crc64_xz (some (front ++ b ∷ back))
unfolding e2e_crc64_xz e2e_crc64_xz_update
e2e_crc64_xz_detects front back a b hf hk ha hb ne e = ne (
    crc_bytes_detects e2e_crc64_init front back a b (omega arith) hf hk ha hb
      (bit_xor_cancel 64 _ _ e2e_crc64_xorout (bound a ha) (bound b hb) e))
  where
    bound : (c : ℕ) → IsByte c → IsU64 (crc_bytes e2e_crc64_init (front ++ c ∷ back))
    bound c hc =
        crc_bytes-lt e2e_crc64_init _ (omega arith) (All-append IsByte front (c ∷ back) hf (hc, hk))
