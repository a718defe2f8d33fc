-- ===== src/Node/Threads/Stream.antt =====
-- The RDI thread on a TCP stream.
use afi920_ros2_driver.Base.{
  le→ltb, pos, length, take, drop, replicate, All, length-append, length-drop, length-replicate,
  take-append_length, Access, ok, ◌>>=◌, ℕ, zero, suc, ◌+◌, ◌^◌, ◌≤◌, ◌<◌, ◌≡◌, refl, sym, ap, ◌∙◌,
  true, List, [], ◌∷◌, ◌++◌, arith, memcpy_whole, bind_after,
}
use afi920_ros2_driver.Node.Threads.{front_of}
use afi920_ros2_driver.Node.Rdi.{process_rdi_datagram}
use afi920_ros2_driver.Wire.{pack_be32}
use afi920_ros2_driver.Transport.Tcp.Stream.{
  none_left, next_one, Message, bytes_of, Arrives, FitsIn, receive_one,
}
use afi920_ros2_driver.Node.Types.{Clock, Node, Event}
use afi920_ros2_driver.Node.Threads.{
  Process, Clock, Node, thread_loop, Event, thread_round, handle_received, stopped, overwrite,
  rdi_thread_func, tcp_buf_size, process_rdi_datagram,
}
use afi920_ros2_driver.Transport.Tcp.{TcpStreamClient, Recv, Dial}
use afi920_ros2_driver.Transport.Tcp.Receiver.{TcpSystem, tcp_stream_receiver}

-- One message after the other is processed, with the clocks of its round.
abbrev pub process_each :
    Process → (ℕ → Clock) → Node → List Event → List Message → Access (Node × List Event)
process_each process clock n events [] = ok (n, events)
process_each process clock n events (m ∷ ms) = process n (clock (length ms)) (bytes_of m) >>= λ r.
    process_each process clock r.0 (events ++ r.1) ms

abbrev later : ℕ → (ℕ → Dial) → ℕ → Dial
later zero dials = dials
later (suc k) dials = later k (λ i. dials (suc i))

pub handle_received_some :
    (process : Process) (n : Node) (c : Clock) (count : ℕ) (buf : List ℕ)
    → 0 < count
    → count ≤ length buf
    → handle_received process n c (pos count) buf ≡ process n c (take count buf)
unfolding handle_received front_of
handle_received_some process n c zero buf h f = absurd (omega arith)
handle_received_some process n c (suc k) buf h f = rw (le→ltb (length buf) (suc k) f) refl

-- The buffer keeps its size.
pub length-overwrite :
    (xs buf : List ℕ) → length xs ≤ length buf → length (overwrite xs buf) ≡ length buf
length-overwrite xs buf h =
    omega (arith, length-append xs (drop (length xs) buf), length-drop {0} (length xs) buf)

length-bytes_of : (m : Message) → length (bytes_of m) ≡ 8 + length m.body
unfolding pack_be32
length-bytes_of m = omega arith

-- The datagram is the message that `Receive` wrote.
take-overwrite :
    (m : Message) (buf : List ℕ)
    → take (8 + length m.body) (overwrite (bytes_of m) buf) ≡ bytes_of m
take-overwrite m buf =
    ap (λ (k : ℕ). take k (overwrite (bytes_of m) buf)) (sym (length-bytes_of m))
    ∙ take-append_length (bytes_of m) (drop (length (bytes_of m)) buf)

module _ (process : Process) (size : ℕ) (clock : ℕ → Clock) (small : size < 2 ^ 31)
    (c : TcpStreamClient) (opened : c.opened ≡ true) where
  thread_loop_messages :
      (r : List Recv) (dials : ℕ → Dial) (a : List Recv) (ms : List Message) (buf : List ℕ)
      (n : Node)
      → (events : List Event) → length buf ≡ size
      → Arrives r a ms
      → All (FitsIn size) ms
      → thread_loop {W = TcpSystem} process size clock
          (length ms)
          buf
          c
          (record { dials = dials; answers = a })
          n
          events
        ≡ (process_each process clock n events ms >>= λ x.
            ok (stopped c (record { dials = later (length ms) dials; answers = r }) x.0 x.1))
  unfolding thread_loop thread_round
  thread_loop_messages r dials a ms buf n events e none_left f = refl
  thread_loop_messages r dials a ms buf n events e
        (next_one {a = a1} {b = b} {c = c1} {ms = rest} m head body more) f =
      rw
        (
          receive_one c (dials 0) size opened small c1 b a1 m f.0 head body,
          memcpy_whole buf (bytes_of m) fits,
          handle_received_some process n (clock (length rest)) (8 + length m.body)
              (overwrite (bytes_of m) buf) (omega arith)
              (omega (arith, fits, same, length-bytes_of m)),
          take-overwrite m buf,
        )
        (bind_after (process n (clock (length rest)) (bytes_of m)) _ _ _ (λ x.
          thread_loop_messages r (λ i. dials (suc i)) c1 rest (overwrite (bytes_of m) buf) x.0
            (events ++ x.1) (same ∙ e) more f.1))
    where
      fits : length (bytes_of m) ≤ length buf
      fits = omega (arith, length-bytes_of m, f.0)

      same : length (overwrite (bytes_of m) buf) ≡ length buf
      same = length-overwrite (bytes_of m) buf fits

-- The RDI thread on an open TCP connection, where messages of at most 512 KiB arrive one after the
-- other, each head and each rest cut into any pieces of at least one byte, with interrupts in between:
-- with a round for each message it processes exactly the messages, in order, and then stops with the
-- connection open; it publishes what they make it publish.
pub rdi_thread_func_messages :
    (clock : ℕ → Clock) (c : TcpStreamClient) (dials : ℕ → Dial) (r a : List Recv)
    → (ms : List Message) (n : Node) → c.opened ≡ true
    → Arrives r a ms
    → All (FitsIn tcp_buf_size) ms
    → (w : TcpSystem) × (rdi_thread_func
          (length ms)
          clock
          c
          (record { dials = dials; answers = a })
          n
          true
        ≡ (process_each process_rdi_datagram clock n [] ms >>= λ (after, events).
            ok (stopped c w after events)))
unfolding rdi_thread_func
rdi_thread_func_messages clock c dials r a ms n opened arrives fits = (
  record { dials = later (length ms) dials; answers = r },
  thread_loop_messages process_rdi_datagram tcp_buf_size clock (omega arith) c opened r dials a ms
      (replicate tcp_buf_size 0) n [] (length-replicate {A = ℕ} tcp_buf_size 0) arrives fits,
)
