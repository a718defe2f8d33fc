-- ===== src/Node/Threads/Datagrams.antt =====
-- The three threads on UDP receivers.
use afi920_ros2_driver.Base.{
  ℤ, pos, negsuc, length, take, drop, length-take, length-replicate, take-append_length, Access, ok,
  ◌>>=◌, ℕ, suc, ◌^◌, ◌≤◌, ◌<◌, ◌≡◌, refl, ap, ◌∙◌, true, false, List, [], ◌∷◌, ◌++◌, arith,
  memcpy_whole, bind_after,
}
use afi920_ros2_driver.Node.Threads.Stream.{handle_received_some, length-overwrite}
use afi920_ros2_driver.Transport.Udp.Receiver.{received_from-IsCount}
use afi920_ros2_driver.Node.Rdi.{process_rdi_datagram}
use afi920_ros2_driver.Node.Shi.{process_shi_datagram}
use afi920_ros2_driver.Node.Spi.{process_spi_datagram}
use afi920_ros2_driver.Node.Types.{Clock, Node, Event}
use afi920_ros2_driver.Node.Threads.{
  Process, thread_loop, thread_round, handle_received, stopped, overwrite, rdi_thread_func,
  shi_thread_func, spi_thread_func, udp_buf_size, small_buf_size,
}
use afi920_ros2_driver.Transport.Tcp.Stream.{int_of-pos}
use afi920_ros2_driver.Transport.Udp.{
  UdpReceiver, RecvFrom, arrived, timed_out, recv_error, receive, received_from, is_open,
}
use afi920_ros2_driver.Transport.Udp.Receiver.{UdpSystem, udp_stream_receiver}

-- What an answer brings: a datagram as far as it fits in the buffer, or nothing.
abbrev pub datagram_of : ℕ → RecvFrom → List ℕ
datagram_of size (arrived datagram) = take size datagram
datagram_of size timed_out = []
datagram_of size recv_error = []

-- An empty datagram is passed over.
abbrev pub process_some : Process → Node → Clock → List ℕ → Access (Node × List Event)
process_some process n clock [] = ok (n, [])
process_some process n clock (x ∷ xs) = process n clock (x ∷ xs)

-- One answer after the other, with the clocks of its round.
abbrev pub process_answers :
    Process → ℕ → (ℕ → Clock) → Node → List Event → List RecvFrom → Access (Node × List Event)
process_answers process size clock n events [] = ok (n, events)
process_answers process size clock n events (a ∷ rest) =
    process_some process n (clock (length rest)) (datagram_of size a) >>= λ r.
    process_answers process size clock r.0 (events ++ r.1) rest

module _ (process : Process) (n : Node) (c : Clock) (buf : List ℕ) where
  handle_received_datagram :
      (xs : List ℕ)
      → length xs ≤ length buf
      → handle_received process n c (pos (length xs)) (overwrite xs buf)
        ≡ process_some process n c xs
  unfolding handle_received
  handle_received_datagram [] h = refl
  handle_received_datagram (x ∷ xs) h =
      handle_received_some process n c (suc (length xs)) (overwrite (x ∷ xs) buf) (omega arith)
        (omega (arith, length-overwrite (x ∷ xs) buf h))
      ∙ ap (process n c) (take-append_length (x ∷ xs) (drop (length (x ∷ xs)) buf))

  handle_received_answer :
      (answer : RecvFrom) (size : ℕ)
      → size < 2 ^ 31
      → length buf ≡ size
      → handle_received process n c
          (received_from answer size).0
          (overwrite (received_from answer size).1 buf)
        ≡ process_some process n c (datagram_of size answer)
  unfolding received_from handle_received
  handle_received_answer (arrived datagram) size h e =
      let same =
        int_of-pos (length (take size datagram)) (omega (arith, length-take size datagram)) in
      ap (λ (rc : ℤ). handle_received process n c rc (overwrite (take size datagram) buf)) same
      ∙ handle_received_datagram (take size datagram) (omega (arith, length-take size datagram))
  handle_received_answer timed_out size h e = refl
  handle_received_answer recv_error size h e = refl

module _ (process : Process) (size : ℕ) (clock : ℕ → Clock) (small : size < 2 ^ 31) where
  -- What the loop comes to with a round for each answer.
  abbrev Datagrams : UdpReceiver → UdpSystem → List ℕ → Node → List Event → Type 0
  Datagrams r w buf n events =
      thread_loop process size clock (length w.answers) buf r w n events ≡ (
        process_answers process size clock n events w.answers >>= λ x.
        ok (stopped r (record w { answers = [] }) x.0 x.1))

  listening-Datagrams :
      (r : UdpReceiver) (fd : ℕ) (w : UdpSystem) (rest : List RecvFrom) (buf : List ℕ) (n : Node)
      → (events : List Event) → length buf ≡ size
      → Datagrams (record r { socket_fd = pos fd }) (record w { answers = rest }) buf n events
  unfolding thread_loop thread_round receive
  listening-Datagrams r fd w [] buf n events e = refl
  listening-Datagrams r fd w (a ∷ rest) buf n events e =
      rw
        (
          memcpy_whole buf (received_from a size).1 (omega (arith, fits)),
          handle_received_answer process n (clock (length rest)) buf a size small e,
        )
        (bind_after (process_some process n (clock (length rest)) (datagram_of size a)) _ _ _ (λ x.
          listening-Datagrams r fd w rest (overwrite (received_from a size).1 buf) x.0
            (events ++ x.1)
            (length-overwrite (received_from a size).1 buf (omega (arith, fits)) ∙ e)))
    where
      fits : length (received_from a size).1 ≤ size
      fits = (received_from-IsCount a size small).0

  open-Datagrams :
      (r : UdpReceiver) (w : UdpSystem) (buf : List ℕ) (n : Node)
      → length buf ≡ size
      → is_open r ≡ true
      → Datagrams r w buf n []
  unfolding is_open
  open-Datagrams r w buf n size_kept opened = go r.socket_fd opened
    where
      go :
          (fd : ℤ)
          → is_open (record r { socket_fd = fd }) ≡ true
          → Datagrams (record r { socket_fd = fd }) w buf n []
      go (pos k) e = listening-Datagrams r k w w.answers buf n [] size_kept
      go (negsuc k) e = absurd (cc)

-- The three threads on open UDP receivers, each with a round for each answer of `recvfrom`: each
-- processes exactly the datagrams that arrive, in order and cut to its buffer of 400 or 4 KiB, passes
-- over timeouts, errors and empty datagrams, and stops with the receiver open; it publishes what they
-- make it publish.
pub threads_datagrams :
    (clock : ℕ → Clock) (r : UdpReceiver) (w : UdpSystem) (n : Node)
    → is_open r ≡ true
    → (rdi_thread_func (length w.answers) clock r w n false ≡ (
        process_answers process_rdi_datagram udp_buf_size clock n [] w.answers >>= λ x.
        ok (stopped r (record w { answers = [] }) x.0 x.1)))
      × (shi_thread_func (length w.answers) clock r w n ≡ (
          process_answers process_shi_datagram small_buf_size clock n [] w.answers >>= λ x.
          ok (stopped r (record w { answers = [] }) x.0 x.1)))
      × (spi_thread_func (length w.answers) clock r w n ≡ (
          process_answers process_spi_datagram small_buf_size clock n [] w.answers >>= λ x.
          ok (stopped r (record w { answers = [] }) x.0 x.1)))
unfolding rdi_thread_func shi_thread_func spi_thread_func
threads_datagrams clock r w n opened = (
  open-Datagrams process_rdi_datagram udp_buf_size clock (omega arith) r w _ n
      (length-replicate {A = ℕ} udp_buf_size 0) opened,
  open-Datagrams process_shi_datagram small_buf_size clock (omega arith) r w _ n
      (length-replicate {A = ℕ} small_buf_size 0) opened,
  open-Datagrams process_spi_datagram small_buf_size clock (omega arith) r w _ n
      (length-replicate {A = ℕ} small_buf_size 0) opened,
)
