-- ===== src/Transport/Udp.antt =====
-- src/udp_receiver.cpp. What the system answers to the socket calls is an argument. A file descriptor
-- is the `int` that the system returns; the timeout is not negative.
pub mod Ledger
pub mod Receiver
mod Runs
use afi920_ros2_driver.Transport.StreamReceiver.{Outcome, result, waits}
use afi920_ros2_driver.Base.{
  if◌then◌else◌, ℤ, pos, negsuc, is_negative, length, take, ℕ, ◌*◌, ◌/◌, ◌%◌, Bool, not, List, [],
  ◌∷◌, ◌++◌,
}
use afi920_ros2_driver.Transport.Tcp.{int_of, close_valid}

pub record UdpReceiver : Type 0 where
  pub port : ℕ
  pub buffer_size : ℕ
  pub timeout_ms : ℕ
  pub socket_fd : ℤ

-- As constructed, with the default arguments.
abbrev pub udp_receiver_init : ℕ → UdpReceiver
udp_receiver_init port = record {
  port = port;
  buffer_size = 16 * 1024 * 1024;
  timeout_ms = 1000;
  socket_fd = negsuc 0;
}

-- The options of a socket that `Connect` sets, and the port that it binds.
pub record SocketOptions : Type 0 where
  pub reuse : ℕ
  pub receive_buffer : ℤ
  pub timeout_sec : ℕ
  pub timeout_usec : ℕ
  pub bound_port : ℕ

unfoldable pub socket_options : UdpReceiver → SocketOptions
unfolding int_of
socket_options r = record {
  reuse = 1;
  receive_buffer = int_of r.buffer_size;
  timeout_sec = r.timeout_ms / 1000;
  timeout_usec = r.timeout_ms % 1000 * 1000;
  bound_port = r.port;
}

-- The new descriptor, and whether it could be bound with these options.
pub record Bind : Type 0 where
  pub socket : ℤ
  pub bound : SocketOptions → Bool

-- With the descriptors that were closed.
unfoldable pub close : UdpReceiver → UdpReceiver × List ℤ
close r =
    if is_negative r.socket_fd
    then (r, [])
    else (record r { socket_fd = negsuc 0 }, r.socket_fd ∷ [])

-- The result, the receiver, and the descriptors that were closed.
unfoldable pub connect : UdpReceiver → Bind → ℤ × UdpReceiver × List ℤ
unfolding close socket_options
connect r b =
    let (r1, stale) = if is_negative r.socket_fd then (r, []) else close r in
    let opened = record r1 { socket_fd = b.socket } in
    if is_negative b.socket
    then (negsuc 0, opened, stale)
    else (if not (b.bound (socket_options opened))
        then (negsuc 0, record opened { socket_fd = negsuc 0 }, stale ++ b.socket ∷ [])
        else (pos 0, opened, stale))

-- An answer of `recvfrom`: a datagram, of which what does not fit in the buffer is lost; the timeout;
-- or another error.
pub data RecvFrom : Type 0 where
  arrived : List ℕ → RecvFrom
  timed_out : RecvFrom
  recv_error : RecvFrom

-- What is returned, and written at the front of the buffer.
unfoldable pub received_from : RecvFrom → ℕ → ℤ × List ℕ
unfolding int_of
received_from (arrived datagram) buf_size =
    let xs = take buf_size datagram in (int_of (length xs), xs)
received_from timed_out buf_size = (pos 0, [])
received_from recv_error buf_size = (negsuc 0, [])

-- A receiver that is closed does not ask the system.
unfoldable pub receive : UdpReceiver → List RecvFrom → ℕ → Outcome UdpReceiver (List RecvFrom)
unfolding received_from
receive r answers buf_size =
    if is_negative r.socket_fd then result (negsuc 0) [] r answers else (elim answers [
      | [] ↦ waits
      | answer ∷ rest ↦ let (rc, xs) = received_from answer buf_size in result rc xs r rest
    ])

unfoldable pub is_open : UdpReceiver → Bool
is_open r = not (is_negative r.socket_fd)
