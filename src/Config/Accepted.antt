-- ===== src/Config/Accepted.antt =====
-- When the configuration succeeds.
use afi920_ros2_driver.Base.{
  pos, is_negative, length, get_or, ℕ, bit_and, ◌≡◌, ◌≢◌, ◌⊎◌, Bool, true, false, none, some, List,
  [],
}
use afi920_ros2_driver.Transport.Tcp.{Recv}
use afi920_ros2_driver.Wire.{join_be32}
use afi920_ros2_driver.Config.{
  send_all, msg_type_response, parse_json_return_code, ConfigSystem, join_be32, Recv, read_body,
  recv_exact, header_size,
}

-- A response that reports no error: by its type, its SOME/IP return code, and the code of its JSON
-- text, which may be missing.
pub record IsAccepted (hdr body : List ℕ) : Type 0 where
  pub response : bit_and (get_or hdr 14 0) msg_type_response ≢ 0
  pub no_error : get_or hdr 15 0 ≡ 0
  pub code : (parse_json_return_code body ≡ none) ⊎ (parse_json_return_code body ≡ some (pos 0))

abbrev Done : ℕ → Bool × ℕ → Type 0
Done n (all, sent) = all ≡ true → sent ≡ n

-- The head of the response as it is read, and the answers behind it.
abbrev pub head_read : ConfigSystem → Bool × List ℕ × List Recv
head_read w = recv_exact header_size [] w.answers

abbrev pub declared_length : List ℕ → ℕ
declared_length hdr = join_be32 (get_or hdr 4 0) (get_or hdr 5 0) (get_or hdr 6 0) (get_or hdr 7 0)

-- Every step of the exchange went well.
pub record IsSuccess (request : List ℕ) (w : ConfigSystem) : Type 0 where
  pub opened : is_negative w.socket ≡ false
  pub parsed : w.address_parsed ≡ true
  pub connected : w.connected ≡ true
  pub all_sent : (send_all (length request) 0 w.sends).0 ≡ true
  pub head_came : (head_read w).0 ≡ true
  pub accepted :
      IsAccepted (head_read w).1 (read_body (declared_length (head_read w).1) (head_read w).2)
