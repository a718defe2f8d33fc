-- ===== src/E2e/Protect.antt =====
-- Frames as a sender protects them, and what `e2e_validate` makes of them and of damaged ones.
use afi920_ros2_driver.Base.{
  ◌==◌, if◌then◌else◌, ==_iff, length, drop, All, ok, ℕ, ◌+◌, ◌^◌, ◌≤◌, ◌<◌, ◌≡◌, refl, ◌∙◌, ◌≢◌,
  some, List, ◌++◌, arith,
}
use afi920_ros2_driver.Wire.{IsByte, byte_of, pack_be32, pack_be64}
use afi920_ros2_driver.Wire.RoundTrip.{byte_of-digit, join_be32_bytes}
use afi920_ros2_driver.E2e.{
  E2eHeader, E2eStatus, k_ok, k_crc_mismatch, e2e_header_size, join_be64, e2e_crc64_xz,
  e2e_validate, e2e_offset_length,
}
use afi920_ros2_driver.E2e.Crc.{IsU64, e2e_crc64_xz-lt}
use afi920_ros2_driver.E2e.Header.{header_at, e2e_parse-ok, join_be64_sum}

join_be64_bytes :
    (v : ℕ)
    → IsU64 v
    → join_be64
        (byte_of v 56)
        (byte_of v 48)
        (byte_of v 40)
        (byte_of v 32)
        (byte_of v 24)
        (byte_of v 16)
        (byte_of v 8)
        (byte_of v 0)
      ≡ v
join_be64_bytes v h =
    join_be64_sum _ _ _ _ _ _ _ _ (omega arith)
    ∙ omega (
      arith,
      byte_of-digit v 0,
      byte_of-digit v 8,
      byte_of-digit v 16,
      byte_of-digit v 24,
      byte_of-digit v 32,
      byte_of-digit v 40,
      byte_of-digit v 48,
      byte_of-digit v 56,
    )

-- The part that the CRC covers: length, counter and data id, and then the payload.
pub covered : ℕ → ℕ → List ℕ → List ℕ
covered counter data_id iso =
    pack_be32 (length iso) ++ pack_be32 counter ++ pack_be32 data_id ++ iso

-- A frame of E2E Profile 7: the CRC of the covered part, and that part.
pub protect : ℕ → ℕ → List ℕ → List ℕ
protect counter data_id iso =
    let rest = covered counter data_id iso in pack_be64 (e2e_crc64_xz (some rest)) ++ rest

abbrev pub verdict : ℕ → E2eHeader → E2eStatus × E2eHeader
verdict crc header = (if crc == header.crc then k_ok else k_crc_mismatch, header)

pub verdict-eq_ok :
    (crc : ℕ) (header h : E2eHeader) → ok (verdict crc header) ≡ ok (k_ok, h) → crc ≡ header.crc
verdict-eq_ok crc header h e = ground arith

pub verdict_mismatch :
    (crc : ℕ) (header : E2eHeader)
    → crc ≢ header.crc
    → verdict crc header ≡ (k_crc_mismatch, header)
verdict_mismatch crc header ne = ground arith

-- Where the header is there, the CRC over what follows the CRC field decides.
pub e2e_validate-verdict :
    (buf : List ℕ) (out : E2eHeader)
    → e2e_header_size ≤ length buf
    → e2e_validate (some buf) out
      ≡ ok (verdict (e2e_crc64_xz (some (drop e2e_offset_length buf))) (header_at buf))
unfolding e2e_validate
e2e_validate-verdict buf out h = rw (e2e_parse-ok buf out h)

covered-IsByte :
    (counter data_id : ℕ) (iso : List ℕ) → All IsByte iso → All IsByte (covered counter data_id iso)
unfolding covered pack_be32
covered-IsByte counter data_id iso b = (
  omega arith,
  (
    omega arith,
    (
      omega arith,
      (
        omega arith,
        (
          omega arith,
          (
            omega arith,
            (
              omega arith,
              (omega arith, (omega arith, (omega arith, (omega arith, (omega arith, b))))),
            ),
          ),
        ),
      ),
    ),
  ),
)

-- The header of the frame.
abbrev pub header_of : ℕ → ℕ → List ℕ → E2eHeader
header_of counter data_id iso = record {
  crc = e2e_crc64_xz (some (covered counter data_id iso));
  length = length iso;
  counter = counter;
  data_id = data_id;
}

module _ (counter data_id : ℕ) (iso : List ℕ) where
  pub protected_header :
      counter < 2 ^ 32
      → data_id < 2 ^ 32
      → length iso < 2 ^ 32
      → All IsByte iso
      → header_at (protect counter data_id iso) ≡ header_of counter data_id iso
  unfolding protect covered pack_be32 pack_be64
  protected_header hc hd hl hb = λ i. record {
    crc =
        join_be64_bytes (e2e_crc64_xz (some (covered counter data_id iso)))
          (e2e_crc64_xz-lt _ (covered-IsByte counter data_id iso hb)) i;
    length = join_be32_bytes (length iso) hl i;
    counter = join_be32_bytes counter hc i;
    data_id = join_be32_bytes data_id hd i;
  }

  pub drop-protect : drop 8 (protect counter data_id iso) ≡ covered counter data_id iso
  unfolding protect covered pack_be32 pack_be64
  drop-protect = refl

  pub payload-protect : drop e2e_header_size (protect counter data_id iso) ≡ iso
  unfolding protect covered pack_be32 pack_be64
  payload-protect = refl

  pub length-protect : length (protect counter data_id iso) ≡ e2e_header_size + length iso
  unfolding protect covered pack_be32 pack_be64
  length-protect = omega arith

  pub protect_size : e2e_header_size ≤ length (protect counter data_id iso)
  unfolding protect covered pack_be32 pack_be64
  protect_size = omega arith

  -- A frame of bytes that a sender protects by the profile is accepted, and the header that comes
  -- back holds the payload's length and the sender's counter and data id.
  pub e2e_validate-protect :
      (out : E2eHeader)
      → counter < 2 ^ 32
      → data_id < 2 ^ 32
      → length iso < 2 ^ 32
      → All IsByte iso
      → e2e_validate (some (protect counter data_id iso)) out
        ≡ ok (
          k_ok,
          record {
            crc = e2e_crc64_xz (some (covered counter data_id iso));
            length = length iso;
            counter = counter;
            data_id = data_id;
          },
        )
  e2e_validate-protect out hc hd hl hb =
      let header = protected_header hc hd hl hb in
      e2e_validate-verdict _ out protect_size
      ∙ (λ i. ok (verdict (e2e_crc64_xz (some (drop-protect i))) (header i)))
      ∙ rw ((==_iff (e2e_crc64_xz (some (covered counter data_id iso))) _).1 refl)
