-- ===== src/Config.antt =====
-- src/config_client.cpp. What the system answers to the calls is an argument: a `send` or a `recv`
-- without an answer runs into the timeout, which ends it with an error. The helpers `pack_be16`,
-- `pack_be32` and `unpack_be32` of the file are those of Wire over again.
pub mod Text
pub mod Request
pub mod Reply
pub mod Pieces
pub mod Exchange
pub mod Accepted
mod Runs
use afi920_ros2_driver.Base.{
  ltb, leb, ◌==◌, ◌!=◌, if◌then◌else◌, ℤ, pos, negsuc, is_negative, length, get_or, take, drop,
  replicate, ℕ, ◌+◌, ◌-◌, ◌*◌, ◌%◌, ◌^◌, min, bit_and, Bool, true, false, not, ◌||◌, Option, none,
  some, List, [], ◌∷◌, ◌++◌, map,
}
use afi920_ros2_driver.Config.Text.{to_string, codes, int_of_long, find_text, strtoll, skip_spaces}
use mathlib.Core.Option
use afi920_ros2_driver.Wire.{pack_be16, pack_be32, join_be32}
use afi920_ros2_driver.Transport.Tcp.{Recv, got, closed, interrupted, failed, close_valid}

abbrev pub service_id : ℕ
service_id = 0x6000

abbrev pub method_set_network_config : ℕ
method_set_network_config = 0x0021

abbrev pub client_id : ℕ
client_id = 0x0001

abbrev pub msg_type_request : ℕ
msg_type_request = 0x00

abbrev pub msg_type_response : ℕ
msg_type_response = 0x80

abbrev pub header_size : ℕ
header_size = 16

abbrev quote : List ℕ
quote = b'"' ∷ []

-- The object that asks the sensor to stream to a host, at three ports of 16 bits, in one protocol.
unfoldable pub request_json : List ℕ → ℕ → ℕ → ℕ → List ℕ → List ℕ
unfolding to_string
request_json host_ip data_port shi_port spi_port transport_mode =
    codes "{\"detection_ip\":\""
    ++ host_ip
    ++ quote
    ++ codes ",\"detection_port\":"
    ++ to_string data_port
    ++ codes ",\"detection_protocol\":\""
    ++ transport_mode
    ++ quote
    ++ codes ",\"health_ip\":\""
    ++ host_ip
    ++ quote
    ++ codes ",\"health_port\":"
    ++ to_string shi_port
    ++ codes ",\"health_protocol\":\""
    ++ transport_mode
    ++ quote
    ++ codes ",\"performance_ip\":\""
    ++ host_ip
    ++ quote
    ++ codes ",\"performance_port\":"
    ++ to_string spi_port
    ++ codes ",\"performance_protocol\":\""
    ++ transport_mode
    ++ quote
    ++ codes "}"

-- The 16 bytes before a payload of so many bytes.
unfoldable pub request_header : ℕ → List ℕ
request_header payload_len =
    pack_be16 service_id
    ++ pack_be16 method_set_network_config
    ++ pack_be32 ((8 + payload_len) % 2 ^ 32)
    ++ pack_be16 client_id
    ++ pack_be16 0x0001
    ++ 0x01 ∷ 0x01 ∷ msg_type_request ∷ 0x00 ∷ []

unfoldable pub request_of : List ℕ → List ℕ
unfolding request_header
request_of json =
    let payload_len = length json % 2 ^ 32 in request_header payload_len ++ take payload_len json

-- An answer of `send`: so many bytes were taken, or none.
pub data Sent : Type 0 where
  took : ℕ → Sent
  send_failed : Sent

-- The loop from `sent` on: whether all was sent, and how much.
unfoldable pub send_all : ℕ → ℕ → List Sent → Bool × ℕ
send_all n sent [] = (leb n sent, sent)
send_all n sent (took r ∷ answers) =
    let rest = send_all n (sent + min r (n - sent)) answers in
    if leb n sent then (true, sent) else (if r == 0 then (false, sent) else rest)
send_all n sent (send_failed ∷ answers) = (leb n sent, sent)

-- The loop with the bytes that have come: whether it is done, the bytes in the buffer, and the
-- answers that are left. An interrupt ends it too.
unfoldable pub recv_exact : ℕ → List ℕ → List Recv → Bool × List ℕ × List Recv
recv_exact n received [] = (leb n (length received), received, [])
recv_exact n received (got xs ∷ answers) =
    let rest = recv_exact n (received ++ xs) answers in
    let asked = n - length received in
    if leb n (length received)
    then (true, received, got xs ∷ answers)
    else (if length xs == 0
        then (false, received, answers)
        else (if ltb asked (length xs)
            then (true, received ++ take asked xs, got (drop asked xs) ∷ answers)
            else rest))
recv_exact n received (closed ∷ answers) =
    if leb n (length received)
    then (true, received, closed ∷ answers)
    else (false, received, answers)
recv_exact n received (interrupted ∷ answers) =
    if leb n (length received)
    then (true, received, interrupted ∷ answers)
    else (false, received, answers)
recv_exact n received (failed ∷ answers) =
    if leb n (length received)
    then (true, received, failed ∷ answers)
    else (false, received, answers)

abbrev return_code_key : List ℕ
return_code_key = codes "\"return_code\""

-- What follows the first colon.
unfoldable pub number_after : Option (List ℕ) → Option ℤ
unfolding int_of_long
number_after none = none
number_after (some []) = none
number_after (some (c ∷ text)) = Option.map int_of_long (strtoll (skip_spaces text))

unfoldable pub parse_json_return_code : List ℕ → Option ℤ
unfolding find_text number_after
parse_json_return_code body = elim (find_text return_code_key body) [
  | none ↦ none
  | some text ↦ number_after (find_text (b':' ∷ []) text)
]

-- What the system answers while the sensor is configured.
pub record ConfigSystem : Type 0 where
  pub socket : ℤ
  pub address_parsed : Bool
  pub connected : Bool
  pub sends : List Sent
  pub answers : List Recv

-- The result, the bytes that went out, and the descriptors that were closed.
pub record Configured : Type 0 where
  pub result : ℤ
  pub sent : List ℕ
  pub gone : List ℤ

abbrev pub max_body : ℕ
max_body = 1024 * 1024

-- The body as it is read, best effort: what did not come stays zero.
unfoldable pub read_body : ℕ → List Recv → List ℕ
unfolding recv_exact
read_body resp_length answers =
    let declared = resp_length - 8 in
    let body_len = if ltb max_body declared then 0 else declared in
    let (done, received, left) = recv_exact body_len [] answers in
    if ltb 8 resp_length then received ++ replicate (body_len - length received) 0 else []

-- The checks of a response by its header and its body.
unfoldable pub check_response : List ℕ → List ℕ → ℤ
unfolding parse_json_return_code
check_response resp_hdr body =
    if bit_and (get_or resp_hdr 14 0) msg_type_response == 0
    then negsuc 5
    else (if get_or resp_hdr 15 0 != 0x00 then negsuc 6 else (elim (parse_json_return_code body) [
      | none ↦ pos 0
      | some code ↦ elim code [ pos n ↦ if n != 0 then negsuc 7 else pos 0 | negsuc n ↦ negsuc 7 ]
    ]))

-- From the response header on.
unfoldable pub read_response : List Recv → ℤ
unfolding recv_exact read_body check_response
read_response answers =
    let (done, resp_hdr, left) = recv_exact header_size [] answers in
    let resp_length =
      join_be32 (get_or resp_hdr 4 0) (get_or resp_hdr 5 0) (get_or resp_hdr 6 0)
        (get_or resp_hdr 7 0) in
    if not done then negsuc 4 else check_response resp_hdr (read_body resp_length left)

-- With the bytes of the request.
unfoldable pub exchange : List ℕ → ConfigSystem → Configured
unfolding send_all read_response
exchange request w =
    let (all, sent) = send_all (length request) 0 w.sends in
    if is_negative w.socket
    then record { result = negsuc 0; sent = []; gone = [] }
    else (if not w.address_parsed
        then record { result = negsuc 1; sent = []; gone = w.socket ∷ [] }
        else (if not w.connected
            then record { result = negsuc 2; sent = []; gone = w.socket ∷ [] }
            else record {
              result = if not all then negsuc 3 else read_response w.answers;
              sent = take sent request;
              gone = w.socket ∷ [];
            }))

unfoldable pub configure_streams : List ℕ → ℕ → ℕ → ℕ → List ℕ → ConfigSystem → Configured
unfolding request_json request_of exchange
configure_streams host_ip data_port shi_port spi_port transport_mode w =
    exchange (request_of (request_json host_ip data_port shi_port spi_port transport_mode)) w

-- What the system answers while the local address is looked for; the last is its text.
pub record LocalSystem : Type 0 where
  pub local_socket : ℤ
  pub remote_parsed : Bool
  pub routed : Bool
  pub named : Bool
  pub printed : Option (List ℕ)

-- The text, empty on failure, and the descriptors that were closed.
unfoldable pub detect_local_ip : LocalSystem → List ℕ × List ℤ
detect_local_ip w =
    if is_negative w.local_socket
    then ([], [])
    else (if not w.remote_parsed || not w.routed || not w.named
        then ([], w.local_socket ∷ [])
        else (elim w.printed [ none ↦ [] | some text ↦ text ], w.local_socket ∷ []))
