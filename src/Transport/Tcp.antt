-- ===== src/Transport/Tcp.antt =====
-- src/tcp_stream_client.cpp, in its version for POSIX. What the system answers to the socket calls is
-- an argument: `Dial` for the calls of one `Connect`, and a list of `Recv` for the calls of `recv`,
-- one after the other. A file descriptor is the `int` that the system returns.
pub mod Stream
pub mod Reconnect
pub mod Ledger
pub mod Receiver
mod Runs
use afi920_ros2_driver.Base.{
  ltb, leb, if◌then◌else◌, ℤ, pos, negsuc, is_negative, length, get_or, take, drop, ℕ, ◌+◌, ◌-◌,
  ◌*◌, ◌%◌, ◌^◌, min, Bool, true, false, not, ◌||◌, List, [], ◌∷◌, ◌++◌,
}
use afi920_ros2_driver.Wire.{join_be32}

pub record TcpStreamClient : Type 0 where
  pub socket_fd : ℤ
  pub opened : Bool
  pub running : Bool
  pub reconnect_delay_ms : ℕ

abbrev pub min_reconnect_delay : ℕ
min_reconnect_delay = 1000

abbrev pub max_reconnect_delay : ℕ
max_reconnect_delay = 30000

-- As constructed.
abbrev pub tcp_stream_client_init : TcpStreamClient
tcp_stream_client_init = record {
  socket_fd = negsuc 0;
  opened = false;
  running = true;
  reconnect_delay_ms = 1000;
}

-- The results of one `Connect`: the new descriptor; whether the address could be parsed, the
-- connection was made or is in progress, `select` reports the socket, and it has no pending error.
pub record Dial : Type 0 where
  pub socket : ℤ
  pub address_parsed : Bool
  pub connect_started : Bool
  pub selected : Bool
  pub error_free : Bool

abbrev pub close_valid : ℤ → List ℤ
close_valid fd = if is_negative fd then [] else fd ∷ []

-- The result, the client, and the descriptors that were closed. The options of the socket are left
-- out.
unfoldable pub connect : TcpStreamClient → Dial → ℤ × TcpStreamClient × List ℤ
connect c d =
    let stale = close_valid c.socket_fd in
    let c1 = if is_negative c.socket_fd then c else record c { opened = false } in
    if is_negative d.socket
    then (negsuc 0, c1, stale)
    else (if not d.address_parsed || not d.connect_started || not d.selected || not d.error_free
        then (negsuc 0, c1, stale ++ d.socket ∷ [])
        else (
          pos 0,
          record c1 {
            socket_fd = d.socket;
            opened = true;
            reconnect_delay_ms = min_reconnect_delay;
          },
          stale,
        ))

unfoldable pub close : TcpStreamClient → TcpStreamClient × List ℤ
close c = (
  record c {
    running = false;
    opened = false;
    socket_fd = if is_negative c.socket_fd then c.socket_fd else negsuc 0;
  },
  close_valid c.socket_fd,
)

unfoldable pub is_open : TcpStreamClient → Bool
is_open c = c.opened

-- After the wait of `reconnect_delay_ms`.
unfoldable pub reconnected : ℤ × TcpStreamClient × List ℤ → ℤ × TcpStreamClient × List ℤ
reconnected (pos n, c, gone) = (pos 0, record c { reconnect_delay_ms = min_reconnect_delay }, gone)
reconnected (negsuc n, c, gone) = (
  negsuc 0,
  record c { reconnect_delay_ms = min (c.reconnect_delay_ms * 2) max_reconnect_delay },
  gone,
)

unfoldable pub try_reconnect : TcpStreamClient → Dial → ℤ × TcpStreamClient × List ℤ
unfolding connect reconnected
try_reconnect c d =
    if not c.running
    then (negsuc 0, c, [])
    else (let (rc, after, gone) =
          reconnected (connect (record c { socket_fd = negsuc 0; opened = false }) d) in
        (rc, after, close_valid c.socket_fd ++ gone))

-- An answer of `recv`: bytes, of which it takes at most what it is asked for, so that the others
-- are there for the next call; the end of the connection; an interrupt by a signal; or an error.
pub data Recv : Type 0 where
  got : List ℕ → Recv
  closed : Recv
  interrupted : Recv
  failed : Recv

-- `recv_exact` is done, or broken off, with the bytes in the buffer and the answers that are left;
-- or it waits for an answer.
pub data Exact : Type 0 where
  complete : List ℕ → List Recv → Exact
  broken : List ℕ → List Recv → Exact
  waiting : Exact

-- The loop, with the bytes that have been received.
unfoldable pub recv_exact : ℕ → List ℕ → List Recv → Exact
recv_exact n received [] = if leb n (length received) then complete received [] else waiting
recv_exact n received (got xs ∷ answers) =
    let rest = recv_exact n (received ++ xs) answers in
    let asked = n - length received in
    if leb n (length received)
    then complete received (got xs ∷ answers)
    else (if ltb asked (length xs)
        then complete (received ++ take asked xs) (got (drop asked xs) ∷ answers)
        else rest)
recv_exact n received (interrupted ∷ answers) =
    let rest = recv_exact n received answers in
    if leb n (length received) then complete received (interrupted ∷ answers) else rest
recv_exact n received (closed ∷ answers) =
    if leb n (length received)
    then complete received (closed ∷ answers)
    else broken received answers
recv_exact n received (failed ∷ answers) =
    if leb n (length received)
    then complete received (failed ∷ answers)
    else broken received answers

-- `static_cast<int>(n)`
unfoldable pub int_of : ℕ → ℤ
int_of n = let w = n % 2 ^ 32 in if ltb w (2 ^ 31) then pos w else negsuc (2 ^ 32 - w - 1)

-- What `Receive` returns, the bytes that it wrote at the front of the caller's buffer, the client,
-- the descriptors that were closed, and the answers that are left; or it waits.
pub data Received : Type 0 where
  returned : ℤ → List ℕ → TcpStreamClient → List ℤ → List Recv → Received
  blocked : Received

abbrev pub broken_off : TcpStreamClient → TcpStreamClient
broken_off c = record c { opened = false }

-- After the 8 bytes `hdr`, and after the rest.
unfoldable pub receive_rest : TcpStreamClient → List ℕ → Exact → Received
receive_rest c hdr (complete body answers) =
    returned (int_of (8 + length body)) (hdr ++ body) c [] answers
receive_rest c hdr (broken body answers) =
    returned (negsuc 0) (hdr ++ body) (broken_off c) [] answers
receive_rest c hdr waiting = blocked

unfoldable pub receive_header : TcpStreamClient → ℕ → Exact → Received
receive_header c buf_size (complete hdr answers) =
    let len = join_be32 (get_or hdr 4 0) (get_or hdr 5 0) (get_or hdr 6 0) (get_or hdr 7 0) in
    let rest = recv_exact len [] answers in
    if ltb buf_size (8 + len)
    then returned (negsuc 0) [] (broken_off c) [] answers
    else receive_rest c hdr rest
receive_header c buf_size (broken hdr answers) = returned (negsuc 0) [] (broken_off c) [] answers
receive_header c buf_size waiting = blocked

unfoldable pub receive : TcpStreamClient → Dial → List Recv → ℕ → Received
unfolding try_reconnect
receive c d answers buf_size =
    if not c.opened
    then (let (rc, after, gone) = try_reconnect c d in returned rc [] after gone answers)
    else receive_header c buf_size (recv_exact 8 [] answers)
