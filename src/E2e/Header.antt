-- ===== src/E2e/Header.antt =====
-- The E2E header by the bytes of the buffer.
use afi920_ros2_driver.Base.{
  le→ltb, pos, length, drop, length-drop, ok, byte_at-ok, ℕ, ◌+◌, ◌*◌, ◌^◌, ◌≤◌, ◌≡◌, refl, some,
  List, arith,
}
use afi920_ros2_driver.Wire.Total.{u8, be32, unpack_be32-ok, AreBytes, fits64, bit_or_below}
use afi920_ros2_driver.E2e.{
  join_be64, unpack_be64, e2e_parse, E2eHeader, e2e_offset_length, e2e_offset_counter,
  e2e_offset_data_id, e2e_header_size,
}

abbrev pub be64 : List ℕ → ℕ
be64 p = join_be64 (u8 p 0) (u8 p 1) (u8 p 2) (u8 p 3) (u8 p 4) (u8 p 5) (u8 p 6) (u8 p 7)

pub unpack_be64-ok : (p : List ℕ) → 8 ≤ length p → unpack_be64 p ≡ ok (be64 p)
unfolding unpack_be64
unpack_be64-ok p h = rw (
  byte_at-ok p 0 (omega arith),
  byte_at-ok p 1 (omega arith),
  byte_at-ok p 2 (omega arith),
  byte_at-ok p 3 (omega arith),
  byte_at-ok p 4 (omega arith),
  byte_at-ok p 5 (omega arith),
  byte_at-ok p 6 (omega arith),
  byte_at-ok p 7 (omega arith),
)

-- The header that the bytes at `buf` stand for.
abbrev pub header_at : List ℕ → E2eHeader
header_at buf = record {
  crc = be64 buf;
  length = be32 (drop e2e_offset_length buf);
  counter = be32 (drop e2e_offset_counter buf);
  data_id = be32 (drop e2e_offset_data_id buf);
}

pub e2e_parse-ok :
    (buf : List ℕ) (out : E2eHeader)
    → e2e_header_size ≤ length buf
    → e2e_parse (some buf) out ≡ ok (pos 0, header_at buf)
unfolding e2e_parse
e2e_parse-ok buf out h = rw (
  le→ltb (length buf) e2e_header_size h,
  unpack_be64-ok buf (omega arith),
  unpack_be32-ok (drop 8 buf) (omega (arith, length-drop {0} 8 buf)),
  unpack_be32-ok (drop 12 buf) (omega (arith, length-drop {0} 12 buf)),
  unpack_be32-ok (drop 16 buf) (omega (arith, length-drop {0} 16 buf)),
)

pub join_be64_sum :
    (a b c d e f g h : ℕ)
    → AreBytes a b c d e f g h
    → join_be64 a b c d e f g h
      ≡ a * 2 ^ 56 + b * 2 ^ 48 + c * 2 ^ 40 + d * 2 ^ 32 + e * 2 ^ 24 + f * 2 ^ 16 + g * 2 ^ 8 + h
unfolding join_be64
join_be64_sum a b c d e f g h bytes =
    let s1 : ℕ = a * 2 ^ 56 in
    let s2 : ℕ = s1 + b * 2 ^ 48 in
    let s3 : ℕ = s2 + c * 2 ^ 40 in
    let s4 : ℕ = s3 + d * 2 ^ 32 in
    let s5 : ℕ = s4 + e * 2 ^ 24 in
    let s6 : ℕ = s5 + f * 2 ^ 16 in
    let s7 : ℕ = s6 + g * 2 ^ 8 in
    rw (
      fits64 a 56 (omega arith),
      fits64 b 48 (omega arith),
      fits64 c 40 (omega arith),
      fits64 d 32 (omega arith),
      fits64 e 24 (omega arith),
      fits64 f 16 (omega arith),
      fits64 g 8 (omega arith),
      bit_or_below 56 s1 a (b * 2 ^ 48) refl (omega arith),
      bit_or_below 48 s2 (a * 2 ^ 8 + b) (c * 2 ^ 40) (omega arith) (omega arith),
      bit_or_below 40 s3 (a * 2 ^ 16 + b * 2 ^ 8 + c) (d * 2 ^ 32) (omega arith) (omega arith),
      bit_or_below 32 s4 (a * 2 ^ 24 + b * 2 ^ 16 + c * 2 ^ 8 + d) (e * 2 ^ 24) (omega arith)
          (omega arith),
      bit_or_below 24 s5 (a * 2 ^ 32 + b * 2 ^ 24 + c * 2 ^ 16 + d * 2 ^ 8 + e) (f * 2 ^ 16)
          (omega arith) (omega arith),
      bit_or_below 16 s6 (a * 2 ^ 40 + b * 2 ^ 32 + c * 2 ^ 24 + d * 2 ^ 16 + e * 2 ^ 8 + f)
          (g * 2 ^ 8) (omega arith) (omega arith),
      bit_or_below 8 s7
          (a * 2 ^ 48 + b * 2 ^ 40 + c * 2 ^ 32 + d * 2 ^ 24 + e * 2 ^ 16 + f * 2 ^ 8 + g) h
          (omega arith) (omega arith),
    )
