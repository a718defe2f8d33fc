-- ===== src/E2e/Runs.antt =====
-- The E2E theorems at concrete frames, and the CRC's known answer.
use afi920_ros2_driver.Base.{ok, byte_at, ℕ, ◌≡◌, refl, some, List, [], ◌∷◌, ◌++◌, arith}
use afi920_ros2_driver.E2e.{
  e2e_parse, unpack_be64, join_be64, e2e_crc64_xz, e2e_crc64_xz_update, crc_bytes, e2e_header_init,
  k_ok, e2e_validate, k_crc_mismatch,
}
use afi920_ros2_driver.Wire.{unpack_be32, join_be32}
use afi920_ros2_driver.E2e.Header.{header_at}
use afi920_ros2_driver.E2e.Damage.{e2e_validate-damaged}

-- The text "123456789", the CRC-64/XZ check input.
abbrev check_input : List ℕ
check_input = 49 ∷ 50 ∷ 51 ∷ 52 ∷ 53 ∷ 54 ∷ 55 ∷ 56 ∷ 57 ∷ []

known_answer : e2e_crc64_xz (some check_input) ≡ 0x995d_c9bb_df19_39fa
unfolding e2e_crc64_xz e2e_crc64_xz_update crc_bytes
known_answer = refl

abbrev iso_bytes : List ℕ
iso_bytes = 1 ∷ 2 ∷ 3 ∷ 4 ∷ []

-- A frame around the payload 1, 2, without its last byte.
abbrev frame_front : List ℕ
frame_front =
    218 ∷ 242 ∷ 119 ∷ 235 ∷ 108 ∷ 142 ∷ 91 ∷ 185 ∷ 0 ∷ 0 ∷ 0 ∷ 2 ∷ 0 ∷ 0 ∷ 0 ∷ 7 ∷ 96 ∷ 0 ∷ 128 ∷ 2
    ∷ 1 ∷ []

frame_accepted :
    e2e_validate (some (frame_front ++ 2 ∷ [])) e2e_header_init
    ≡ ok (k_ok, header_at (frame_front ++ 2 ∷ []))
unfolding e2e_validate e2e_parse unpack_be64 unpack_be32 byte_at e2e_crc64_xz e2e_crc64_xz_update
    crc_bytes join_be64 join_be32
frame_accepted = refl

e2e_validate-damaged_example :
    e2e_validate (some (frame_front ++ 3 ∷ [])) e2e_header_init
    ≡ ok (k_crc_mismatch, header_at (frame_front ++ 3 ∷ []))
e2e_validate-damaged_example =
    e2e_validate-damaged frame_front [] 2 3 (omega arith) tt (omega arith) (omega arith)
      (omega arith) e2e_header_init (header_at (frame_front ++ 2 ∷ [])) (omega arith) frame_accepted
