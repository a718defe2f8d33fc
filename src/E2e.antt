-- ===== src/E2e.antt =====
-- include/afi920_driver/someip/e2e.hpp and src/e2e.cpp: the AUTOSAR E2E Profile 7 header and its CRC.
-- A pointer argument is `none` for a null pointer, and otherwise holds the `len` bytes at it. A
-- function that fills an output parameter takes its old value and returns the new one.
pub mod Crc
pub mod Detect
pub mod Header
pub mod Protect
pub mod Damage
mod Runs
use afi920_ros2_driver.Base.{ℕ, zero, suc, ◌+◌, ◌*◌, ◌/◌, ◌^◌, bit_and, bit_or, bit_xor}
use afi920_ros2_driver.Base.{List, [], ◌∷◌, length, drop, Option, none, some, Access, ok, ◌>>=◌}
use afi920_ros2_driver.Base.{ltb, ◌==◌, ◌!=◌, if◌then◌else◌, ℤ, pos, negsuc, is_negative, byte_at}
use afi920_ros2_driver.Wire.{shl64, unpack_be32}
use mathlib.Core.Option

abbrev pub e2e_header_size : ℕ
e2e_header_size = 20

abbrev pub e2e_offset_crc : ℕ
e2e_offset_crc = 0

abbrev pub e2e_offset_length : ℕ
e2e_offset_length = 8

abbrev pub e2e_offset_counter : ℕ
e2e_offset_counter = 12

abbrev pub e2e_offset_data_id : ℕ
e2e_offset_data_id = 16

abbrev pub e2e_crc64_init : ℕ
e2e_crc64_init = 0xffff_ffff_ffff_ffff

abbrev pub e2e_crc64_xorout : ℕ
e2e_crc64_xorout = 0xffff_ffff_ffff_ffff

abbrev pub e2e_data_id_rdi : ℕ
e2e_data_id_rdi = 0x6000_8002

abbrev pub e2e_data_id_shii : ℕ
e2e_data_id_shii = 0x6000_8003

abbrev pub e2e_data_id_spi : ℕ
e2e_data_id_spi = 0x6000_8004

pub record E2eHeader : Type 0 where
  pub crc : ℕ
  pub length : ℕ
  pub counter : ℕ
  pub data_id : ℕ

-- `E2eHeader e2e{}`
abbrev pub e2e_header_init : E2eHeader
e2e_header_init = record { crc = 0; length = 0; counter = 0; data_id = 0 }

pub data E2eStatus : Type 0 where
  k_ok k_crc_mismatch k_too_short : E2eStatus

unfoldable pub join_be64 : ℕ → ℕ → ℕ → ℕ → ℕ → ℕ → ℕ → ℕ → ℕ
join_be64 a b c d e f g h =
    bit_or
      (bit_or
        (bit_or
          (bit_or (bit_or (bit_or (bit_or (shl64 a 56) (shl64 b 48)) (shl64 c 40)) (shl64 d 32))
            (shl64 e 24))
          (shl64 f 16))
        (shl64 g 8))
      h

unfoldable pub unpack_be64 : List ℕ → Access ℕ
unpack_be64 p = do
  a ← byte_at p 0
  b ← byte_at p 1
  c ← byte_at p 2
  d ← byte_at p 3
  e ← byte_at p 4
  f ← byte_at p 5
  g ← byte_at p 6
  h ← byte_at p 7
  ok (join_be64 a b c d e f g h)

unfoldable pub e2e_parse : Option (List ℕ) → E2eHeader → Access (ℤ × E2eHeader)
e2e_parse none out = ok (negsuc 0, out)
e2e_parse (some buf) out = if ltb (length buf) e2e_header_size then ok (negsuc 0, out) else do
  crc ← unpack_be64 (drop e2e_offset_crc buf)
  len ← unpack_be32 (drop e2e_offset_length buf)
  counter ← unpack_be32 (drop e2e_offset_counter buf)
  data_id ← unpack_be32 (drop e2e_offset_data_id buf)
  ok (pos 0, record { crc = crc; length = len; counter = counter; data_id = data_id })

abbrev pub reflected_poly : ℕ
reflected_poly = 0xc96c_5795_d787_0f42

-- The body of the loop over the bits, its eight rounds, and the loop over the bytes.
unfoldable pub crc_bit : ℕ → ℕ
crc_bit crc = if bit_and crc 1 != 0 then bit_xor (crc / 2) reflected_poly else crc / 2

unfoldable pub crc_bits : ℕ → ℕ → ℕ
unfolding crc_bit
crc_bits zero crc = crc
crc_bits (suc n) crc = crc_bits n (crc_bit crc)

unfoldable pub crc_bytes : ℕ → List ℕ → ℕ
unfolding crc_bits
crc_bytes crc [] = crc
crc_bytes crc (x ∷ xs) = crc_bytes (crc_bits 8 (bit_xor crc x)) xs

unfoldable pub e2e_crc64_xz_update : ℕ → Option (List ℕ) → ℕ
e2e_crc64_xz_update crc none = crc
e2e_crc64_xz_update crc (some xs) = crc_bytes crc xs

unfoldable pub e2e_crc64_xz : Option (List ℕ) → ℕ
e2e_crc64_xz xs = bit_xor (e2e_crc64_xz_update e2e_crc64_init xs) e2e_crc64_xorout

-- The CRC is computed only if the header was parsed, so `buf` is then no null pointer.
unfoldable pub e2e_validate : Option (List ℕ) → E2eHeader → Access (E2eStatus × E2eHeader)
e2e_validate buf out = do
  (rc, header) ← e2e_parse buf out
  if is_negative rc
      then ok (k_too_short, header)
      else (let crc = e2e_crc64_xz (Option.map (drop e2e_offset_length) buf) in
          ok (if crc == header.crc then k_ok else k_crc_mismatch, header))
