-- ===== src/Someip/Header.antt =====
-- The SOME/IP and SOME/IP-TP headers: reading back what was packed, and which headers are valid.
use afi920_ros2_driver.Base.{
  ◌!=◌, le→ltb, pos, length, get_or, drop, length-drop, ok, byte_at-ok, byte_at, ℕ, ◌+◌, ◌*◌, ◌/◌,
  ◌%◌, ◌^◌, ◌≤◌, ◌<◌, bit_and, ◌≡◌, ◌∙◌, ◌↔◌, true, some, List, [], ◌∷◌, ◌++◌, arith,
}
use afi920_ros2_driver.Wire.Total.{join_be32_sum, unpack_be32-ok, be32}
use afi920_ros2_driver.Wire.RoundTrip.{
  join_be32_bytes, unpack-pack_be32, byte_of-IsByte, byte_of-digit,
}
use afi920_ros2_driver.Base.Bits.{bit_and-ones, bit_and_32}
use afi920_ros2_driver.Wire.{pack_be16, pack_be32, byte_of, unpack_be32, join_be32}
use afi920_ros2_driver.Someip.{
  SomeipHeader, someip_header_size, someip_deserialize, someip_is_tp, someip_validate,
  someip_tp_deserialize, someip_service_id, SomeipTpHeader,
}

-- The header as a sender lays it out.
unfoldable pub serialize : SomeipHeader → List ℕ
serialize h =
    pack_be16 h.service_id
    ++ pack_be16 h.method_id
    ++ pack_be32 h.length
    ++ pack_be16 h.client_id
    ++ pack_be16 h.session_id
    ++ h.protocol_version ∷ h.interface_version ∷ h.message_type ∷ h.return_code ∷ []

-- Every field of 16 or 32 bits is in range.
pub record IsHeader (h : SomeipHeader) : Type 0 where
  pub service : h.service_id < 2 ^ 16
  pub method : h.method_id < 2 ^ 16
  pub len : h.length < 2 ^ 32
  pub client : h.client_id < 2 ^ 16
  pub session : h.session_id < 2 ^ 16

abbrev pub half_high : ℕ → ℕ
half_high id = bit_and (id / 2 ^ 16) 0xffff % 2 ^ 16

abbrev pub half_low : ℕ → ℕ
half_low id = bit_and id 0xffff % 2 ^ 16

halves : (id : ℕ) → (half_high id ≡ id / 2 ^ 16 % 2 ^ 16) × (half_low id ≡ id % 2 ^ 16)
halves id = omega (arith, bit_and-ones 16 (id / 2 ^ 16), bit_and-ones 16 id)

join_halves :
    (s m : ℕ)
    → s < 2 ^ 16
    → m < 2 ^ 16
    → join_be32 (byte_of s 8) (byte_of s 0) (byte_of m 8) (byte_of m 0) ≡ s * 2 ^ 16 + m
join_halves s m hs hm =
    join_be32_sum _ _ _ _ (byte_of-IsByte s 8) (byte_of-IsByte s 0) (byte_of-IsByte m 8)
      (byte_of-IsByte m 0)
    ∙ omega (arith, byte_of-digit s 8, byte_of-digit s 0, byte_of-digit m 8, byte_of-digit m 0)

-- The two halves of the joined identifier.
high_half :
    (s m : ℕ)
    → s < 2 ^ 16
    → m < 2 ^ 16
    → half_high (join_be32 (byte_of s 8) (byte_of s 0) (byte_of m 8) (byte_of m 0)) ≡ s
high_half s m hs hm = rw (join_halves s m hs hm) (omega (arith, halves (s * 2 ^ 16 + m)))

low_half :
    (s m : ℕ)
    → s < 2 ^ 16
    → m < 2 ^ 16
    → half_low (join_be32 (byte_of s 8) (byte_of s 0) (byte_of m 8) (byte_of m 0)) ≡ m
low_half s m hs hm = rw (join_halves s m hs hm) (omega (arith, halves (s * 2 ^ 16 + m)))

serialize-size : (h : SomeipHeader) (rest : List ℕ) → 16 ≤ length (serialize h ++ rest)
unfolding serialize pack_be16 pack_be32
serialize-size h rest = omega arith

-- A header whose fields are in range is read back from its bytes, whatever follows them.
pub someip_deserialize-serialize :
    (h out : SomeipHeader) (rest : List ℕ)
    → IsHeader h
    → someip_deserialize (some (serialize h ++ rest)) out ≡ ok (pos 0, h)
unfolding someip_deserialize
someip_deserialize-serialize h out rest v =
    rw (le→ltb (length (serialize h ++ rest)) someip_header_size (serialize-size h rest)) (
      unfold serialize pack_be16 pack_be32 unpack_be32 byte_at in
      (λ i. ok (
        pos 0,
        record {
          service_id = high_half h.service_id h.method_id v.service v.method i;
          method_id = low_half h.service_id h.method_id v.service v.method i;
          length = join_be32_bytes h.length v.len i;
          client_id = high_half h.client_id h.session_id v.client v.session i;
          session_id = low_half h.client_id h.session_id v.client v.session i;
          protocol_version = h.protocol_version;
          interface_version = h.interface_version;
          message_type = h.message_type;
          return_code = h.return_code;
        },
      )))

-- Exactly the headers of the radar's service whose message type has Notification in its five low
-- bits are valid, and a message is of the TP kind exactly when bit 5 of its type is set.
pub someip_validate_iff :
    (h : SomeipHeader)
    → ((someip_validate h ≡ true)
        ↔ ((h.service_id ≡ someip_service_id) × (h.message_type % 2 ^ 5 ≡ 2)))
      × ((someip_is_tp h.message_type ≡ true) ↔ (h.message_type / 2 ^ 5 % 2 ≡ 1))
unfolding someip_validate someip_is_tp
someip_validate_iff h =
    (ground (arith, bit_and-ones 5 h.message_type), ground (arith, bit_and_32 h.message_type))

-- The TP header: the offset counts units of 16 bytes above four bits, of which the lowest says that
-- more segments follow.
pub someip_tp_deserialize-pack :
    (units reserved more : ℕ) (rest : List ℕ)
    → units < 2 ^ 28
    → reserved < 2 ^ 3
    → more < 2
    → someip_tp_deserialize (pack_be32 (units * 16 + reserved * 2 + more) ++ rest)
      ≡ ok (record { offset_bytes = units * 16; more_segments = more != 0 })
unfolding someip_tp_deserialize
someip_tp_deserialize-pack units reserved more rest hu hr hm =
    rw (unpack-pack_be32 raw rest (omega arith))
      (λ i. ok (record { offset_bytes = offset i; more_segments = flag i }))
  where
    raw : ℕ
    raw = units * 16 + reserved * 2 + more

    offset : raw / 2 ^ 4 * 16 % 2 ^ 32 ≡ units * 16
    offset = omega arith

    flag : (bit_and raw 0x01 != 0) ≡ (more != 0)
    flag = ground (arith, bit_and-ones 1 raw)

-- The header that the bytes stand for.
abbrev pub header_at : List ℕ → SomeipHeader
header_at p = record {
  service_id = half_high (be32 p);
  method_id = half_low (be32 p);
  length = be32 (drop 4 p);
  client_id = half_high (be32 (drop 8 p));
  session_id = half_low (be32 (drop 8 p));
  protocol_version = get_or p 12 0;
  interface_version = get_or p 13 0;
  message_type = get_or p 14 0;
  return_code = get_or p 15 0;
}

pub someip_deserialize-ok :
    (p : List ℕ) (out : SomeipHeader)
    → someip_header_size ≤ length p
    → someip_deserialize (some p) out ≡ ok (pos 0, header_at p)
unfolding someip_deserialize
someip_deserialize-ok p out h = rw (
  le→ltb (length p) someip_header_size h,
  unpack_be32-ok p (omega arith),
  unpack_be32-ok (drop 4 p) (omega (arith, length-drop {0} 4 p)),
  unpack_be32-ok (drop 8 p) (omega (arith, length-drop {0} 8 p)),
  byte_at-ok p 12 (omega arith),
  byte_at-ok p 13 (omega arith),
  byte_at-ok p 14 (omega arith),
  byte_at-ok p 15 (omega arith),
)

abbrev pub tp_header_at : List ℕ → SomeipTpHeader
tp_header_at p = record {
  offset_bytes = be32 p / 2 ^ 4 * 16 % 2 ^ 32;
  more_segments = bit_and (be32 p) 0x01 != 0;
}

pub someip_tp_deserialize-ok :
    (p : List ℕ) → 4 ≤ length p → someip_tp_deserialize p ≡ ok (tp_header_at p)
unfolding someip_tp_deserialize
someip_tp_deserialize-ok p h = rw (unpack_be32-ok p h)
