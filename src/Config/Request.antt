-- ===== src/Config/Request.antt =====
-- The request, as the sensor reads it.
use afi920_ros2_driver.Base.{
  pos, length, take, drop, take_all, ok, ℕ, ◌+◌, ◌-◌, ◌%◌, ◌^◌, ◌<◌, ◌≡◌, refl, some, List, arith,
}
use afi920_ros2_driver.Wire.{pack_be16, pack_be32}
use afi920_ros2_driver.Someip.Header.{someip_deserialize-serialize, serialize}
use afi920_ros2_driver.Config.{
  request_header, request_of, service_id, method_set_network_config, header_size, client_id,
  msg_type_request, pack_be16, pack_be32,
}
use afi920_ros2_driver.Someip.{SomeipHeader, someip_deserialize}

abbrev pub request_someip : ℕ → SomeipHeader
request_someip payload_len = record {
  service_id = service_id;
  method_id = method_set_network_config;
  length = 8 + payload_len;
  client_id = client_id;
  session_id = 1;
  protocol_version = 1;
  interface_version = 1;
  message_type = msg_type_request;
  return_code = 0;
}

request_header-serialize :
    (n : ℕ) → n < 2 ^ 32 - 8 → request_header n ≡ serialize (request_someip n)
unfolding request_header serialize
request_header-serialize n h = let e : (8 + n) % 2 ^ 32 ≡ 8 + n = omega arith in rw e refl

-- A request whose text has less than 2^32 - 8 bytes is a SOME/IP header, which is read back with the
-- service, the method, the length of what follows the length field, and the client; and then the text.
pub request_of_read :
    (json : List ℕ) (out : SomeipHeader)
    → length json < 2 ^ 32 - 8
    → (someip_deserialize (some (request_of json)) out ≡ ok (pos 0, request_someip (length json)))
      × (drop header_size (request_of json) ≡ json)
unfolding request_of
request_of_read json out h =
    let e : length json % 2 ^ 32 ≡ length json = omega arith in
    let whole : take (length json) json ≡ json = take_all (length json) json refl in
    rw (e, whole, request_header-serialize (length json) h)
      (
        someip_deserialize-serialize (request_someip (length json)) out json (record {
          service = omega arith;
          method = omega arith;
          len = omega arith;
          client = omega arith;
          session = omega arith;
        }),
        unfold serialize pack_be16 pack_be32 in refl,
      )
