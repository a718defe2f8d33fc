-- ===== src/Config/Runs.antt =====
-- The theorems on the configuration client at a concrete exchange.
use afi920_ros2_driver.Base.{
  ◌==◌, if◌then◌else◌, pos, negsuc, drop, ok, ℕ, ◌%◌, ◌^◌, ◌≡◌, refl, true, false, none, some, List,
  [], ◌∷◌, arith,
}
use afi920_ros2_driver.Config.Request.{request_someip, request_of_read}
use afi920_ros2_driver.Node.Types.{someip_header_unset}
use afi920_ros2_driver.Wire.{join_be32}
use afi920_ros2_driver.Config.Reply.{reply, check_response-reply}
use afi920_ros2_driver.Config.Text.{to_string, codes, decimal, find_text, starts_with}
use afi920_ros2_driver.Someip.{someip_deserialize}
use afi920_ros2_driver.Config.{
  ConfigSystem, LocalSystem, configure_streams, detect_local_ip, request_of, request_json, exchange,
  read_response, check_response, header_size, send_all, recv_exact, read_body,
  parse_json_return_code, to_string, codes, join_be32, find_text,
}
use afi920_ros2_driver.Config.Pieces.{all_there, one_piece, taken}
use afi920_ros2_driver.Config.Exchange.{IsResponse, exchange_response, configure_streams_closes}
use afi920_ros2_driver.Transport.Tcp.{got, close_valid}

abbrev request : List ℕ
request = 9 ∷ 8 ∷ 7 ∷ 6 ∷ 5 ∷ []

request_of_read_example :
    (someip_deserialize (some (request_of request)) someip_header_unset
      ≡ ok (pos 0, request_someip 5))
    × (drop header_size (request_of request) ≡ request)
request_of_read_example = request_of_read request someip_header_unset (omega arith)

-- The text of a request.
json_text :
    request_json (codes "10.0.0.1") 30509 30510 7 (codes "udp")
    ≡ codes
        "{\"detection_ip\":\"10.0.0.1\",\"detection_port\":30509,\"detection_protocol\":\"udp\",\"health_ip\":\"10.0.0.1\",\"health_port\":30510,\"health_protocol\":\"udp\",\"performance_ip\":\"10.0.0.1\",\"performance_port\":7,\"performance_protocol\":\"udp\"}"
unfolding request_json to_string decimal
json_text = refl

abbrev resp_hdr : List ℕ
resp_hdr = 96 ∷ 0 ∷ 0 ∷ 33 ∷ 0 ∷ 0 ∷ 0 ∷ 26 ∷ 0 ∷ 1 ∷ 0 ∷ 1 ∷ 1 ∷ 1 ∷ 128 ∷ 0 ∷ []

check_response-reply_example :
    check_response resp_hdr (reply 4294967296 (codes "}"))
    ≡ (if 4294967296 % 2 ^ 32 == 0 then pos 0 else negsuc 7)
check_response-reply_example =
    check_response-reply resp_hdr 4294967296 (codes "}") refl refl (omega arith) refl

abbrev body : List ℕ
body = codes "{\"return_code\": 3}"

abbrev system : ConfigSystem
system = record {
  socket = pos 9;
  address_parsed = true;
  connected = true;
  sends = taken (1 ∷ 2 ∷ []);
  answers = got resp_hdr ∷ got body ∷ [];
}

is_response : IsResponse resp_hdr body
unfolding join_be32
is_response = record { head = refl; declared = refl; small = omega arith }

exchange_response_example :
    exchange request system
    ≡ record { result = check_response resp_hdr body; sent = request; gone = pos 9 ∷ [] }
exchange_response_example =
    exchange_response request system (1 ∷ 2 ∷ []) [] (got body ∷ []) resp_hdr body refl refl refl
      refl refl is_response (one_piece 96 (drop 1 resp_hdr) all_there)
      (one_piece 123 (drop 1 body) all_there)

abbrev accepting : ConfigSystem
accepting = record system {
  answers = got (96 ∷ 0 ∷ 0 ∷ 33 ∷ 0 ∷ 0 ∷ 0 ∷ 8 ∷ 0 ∷ 1 ∷ 0 ∷ 1 ∷ 1 ∷ 1 ∷ 128 ∷ 0 ∷ []) ∷ [];
}

-- The response is accepted.
accepting_succeeds : (exchange request accepting).result ≡ pos 0
unfolding exchange send_all read_response recv_exact read_body check_response join_be32
    parse_json_return_code find_text starts_with
accepting_succeeds = refl

abbrev nowhere : LocalSystem
nowhere = record {
  local_socket = pos 4;
  remote_parsed = true;
  routed = false;
  named = false;
  printed = none;
}

configure_streams_closes_example :
    ((configure_streams (codes "10.0.0.1") 1 2 3 (codes "tcp") system).gone ≡ close_valid (pos 9))
    × ((detect_local_ip nowhere).1 ≡ close_valid (pos 4))
configure_streams_closes_example =
    configure_streams_closes (codes "10.0.0.1") 1 2 3 (codes "tcp") system nowhere
