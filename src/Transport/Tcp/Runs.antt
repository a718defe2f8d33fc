-- ===== src/Transport/Tcp/Runs.antt =====
-- The theorems on the TCP client at concrete answers of the system.
use afi920_ros2_driver.Base.{
  pos, negsuc, ◌*◌, min, ◌≡◌, refl, ◌⊎◌, true, false, some, List, [], ◌∷◌, ◌++◌, arith,
}
use afi920_ros2_driver.Wire.{pack_be32}
use afi920_ros2_driver.Transport.Tcp.{
  connect, close, TcpStreamClient, tcp_stream_client_init, Dial, Recv, got, interrupted, returned,
  receive, try_reconnect, min_reconnect_delay, max_reconnect_delay, close_valid,
}
use afi920_ros2_driver.Transport.Tcp.Stream.{
  Message, done, piece, again, Arrives, none_left, next_one, entry_of, receive_times,
  receive_times-messages, receive_oversized,
}
use afi920_ros2_driver.Transport.Tcp.Ledger.{
  Call, call_reconnect, call_close, run, run_ledger, connect-close_twice,
}
use afi920_ros2_driver.Transport.Tcp.Reconnect.{reachable, try_reconnect-cases}

abbrev open_client : TcpStreamClient
open_client = record tcp_stream_client_init { socket_fd = pos 5; opened = true }

-- The address cannot be parsed.
abbrev unreachable : Dial
unreachable = record {
  socket = pos 7;
  address_parsed = false;
  connect_started = false;
  selected = false;
  error_free = false;
}

abbrev answering : Dial
answering = record {
  socket = pos 8;
  address_parsed = true;
  connect_started = true;
  selected = true;
  error_free = true;
}

abbrev message : Message
message = record { id = 0x6000_8002; body = 1 ∷ 2 ∷ 3 ∷ [] }

-- The head in two pieces with an interrupt between them, then the body at once.
abbrev answers : List Recv
answers =
    got (96 ∷ 0 ∷ 128 ∷ []) ∷ interrupted ∷ got (2 ∷ 0 ∷ 0 ∷ 0 ∷ 3 ∷ []) ∷ got (1 ∷ 2 ∷ 3 ∷ []) ∷ []

arrives : Arrives [] answers (message ∷ [])
unfolding pack_be32
arrives =
    next_one message (piece 96 (0 ∷ 128 ∷ []) (again (piece 2 (0 ∷ 0 ∷ 0 ∷ 3 ∷ []) done)))
      (piece 1 (2 ∷ 3 ∷ []) done) none_left

receive_times-messages_example :
    receive_times 1 unreachable 4096 open_client answers
    ≡ some (entry_of message ∷ [], open_client, [])
receive_times-messages_example =
    receive_times-messages open_client unreachable 4096 refl (omega arith) [] answers (message ∷ [])
      arrives (omega arith)

receive_oversized_example :
    receive open_client unreachable (got (96 ∷ 0 ∷ 128 ∷ 2 ∷ 0 ∷ 0 ∷ 0 ∷ 3 ∷ []) ∷ []) 10
    ≡ returned (negsuc 0) [] (record open_client { opened = false }) [] []
unfolding pack_be32
receive_oversized_example =
    receive_oversized open_client unreachable 10 refl (omega arith) []
      (got (96 ∷ 0 ∷ 128 ∷ 2 ∷ 0 ∷ 0 ∷ 0 ∷ 3 ∷ []) ∷ []) message (omega arith) (omega arith)
      (piece 96 (0 ∷ 128 ∷ 2 ∷ 0 ∷ 0 ∷ 0 ∷ 3 ∷ []) done)

try_reconnect-cases_example :
    ((reachable unreachable ≡ true)
      × (try_reconnect open_client unreachable ≡ (
        pos 0,
        record open_client {
          socket_fd = pos 7;
          opened = true;
          reconnect_delay_ms = min_reconnect_delay;
        },
        close_valid (pos 5) ++ [],
      )))
    ⊎ ((reachable unreachable ≡ false)
        × (try_reconnect open_client unreachable ≡ (
          negsuc 0,
          record open_client {
            socket_fd = negsuc 0;
            opened = false;
            reconnect_delay_ms = min (1000 * 2) max_reconnect_delay;
          },
          close_valid (pos 5) ++ close_valid (pos 7),
        )))
try_reconnect-cases_example = try_reconnect-cases open_client unreachable refl

abbrev later_calls : List Call
later_calls = call_reconnect unreachable ∷ call_reconnect answering ∷ call_close ∷ []

run_ledger_example :
    (let c = (connect tcp_stream_client_init answering).1 in
      close_valid (pos 8) ++ (run c later_calls).1
      ≡ ((connect tcp_stream_client_init answering).2 ++ (run c later_calls).2)
        ++ close_valid (run c later_calls).0.socket_fd)
run_ledger_example = run_ledger answering later_calls

connect-close_twice_example :
    (connect open_client unreachable).2 ++ (close (connect open_client unreachable).1).1
    ≡ (pos 5 ∷ close_valid (pos 7)) ++ pos 5 ∷ []
connect-close_twice_example = connect-close_twice open_client unreachable refl refl
