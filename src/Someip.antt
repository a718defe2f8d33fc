-- ===== src/Someip.antt =====
-- include/afi920_driver/someip/someip_parser.hpp and src/someip_parser.cpp: the SOME/IP header and
-- the SOME/IP-TP header. The reassembly of segments is in Someip/Tp.antt.
pub mod Header
pub mod Tp
mod Runs
use afi920_ros2_driver.Base.{
  ltb, ◌!=◌, if◌then◌else◌, ℤ, pos, negsuc, drop, Access, ok, ◌>>=◌, byte_at, ℕ, ◌*◌, ◌/◌, ◌%◌, ◌^◌,
  bit_and, Bool, true, false, Option, none, some, List, length,
}
use afi920_ros2_driver.Wire.{unpack_be32}

abbrev pub someip_header_size : ℕ
someip_header_size = 16

abbrev pub someip_tp_header_size : ℕ
someip_tp_header_size = 4

abbrev pub someip_tp_flag : ℕ
someip_tp_flag = 0x20

abbrev pub someip_service_id : ℕ
someip_service_id = 0x6000

abbrev pub someip_msg_type_notification : ℕ
someip_msg_type_notification = 0x02

abbrev pub event_rdi : ℕ
event_rdi = 0x8002

abbrev pub event_shii : ℕ
event_shii = 0x8003

abbrev pub event_spi : ℕ
event_spi = 0x8004

pub record SomeipHeader : Type 0 where
  pub service_id : ℕ
  pub method_id : ℕ
  pub length : ℕ
  pub client_id : ℕ
  pub session_id : ℕ
  pub protocol_version : ℕ
  pub interface_version : ℕ
  pub message_type : ℕ
  pub return_code : ℕ

unfoldable pub someip_deserialize : Option (List ℕ) → SomeipHeader → Access (ℤ × SomeipHeader)
someip_deserialize none out = ok (negsuc 0, out)
someip_deserialize (some buf) out =
    if ltb (length buf) someip_header_size then ok (negsuc 0, out) else do
      message_id ← unpack_be32 (drop 0 buf)
      len ← unpack_be32 (drop 4 buf)
      request_id ← unpack_be32 (drop 8 buf)
      protocol_version ← byte_at buf 12
      interface_version ← byte_at buf 13
      message_type ← byte_at buf 14
      return_code ← byte_at buf 15
      ok (
        pos 0,
        record {
          service_id = bit_and (message_id / 2 ^ 16) 0xffff % 2 ^ 16;
          method_id = bit_and message_id 0xffff % 2 ^ 16;
          length = len;
          client_id = bit_and (request_id / 2 ^ 16) 0xffff % 2 ^ 16;
          session_id = bit_and request_id 0xffff % 2 ^ 16;
          protocol_version = protocol_version;
          interface_version = interface_version;
          message_type = message_type;
          return_code = return_code;
        },
      )

unfoldable pub someip_is_tp : ℕ → Bool
someip_is_tp message_type = bit_and message_type someip_tp_flag != 0

unfoldable pub someip_validate : SomeipHeader → Bool
someip_validate hdr =
    if hdr.service_id != someip_service_id
    then false
    else (let base_type = bit_and hdr.message_type 0x1f in
        if base_type != someip_msg_type_notification then false else true)

pub record SomeipTpHeader : Type 0 where
  pub offset_bytes : ℕ
  pub more_segments : Bool

unfoldable pub someip_tp_deserialize : List ℕ → Access SomeipTpHeader
someip_tp_deserialize buf = do
  raw ← unpack_be32 buf
  ok (record { offset_bytes = raw / 2 ^ 4 * 16 % 2 ^ 32; more_segments = bit_and raw 0x01 != 0 })
