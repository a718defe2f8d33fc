-- ===== src/Transport/Udp/Receiver.antt =====
-- The UDP receiver keeps what a receiver promises.
use afi920_ros2_driver.Base.{
  Bool-cases, ℤ, pos, negsuc, is_negative, length, take, length-take, ℕ, suc, ◌^◌, ◌≤◌, ◌<◌, ◌≡◌,
  refl, ◌⊎◌, inl, inr, true, false, List, [], ◌∷◌, arith,
}
use afi920_ros2_driver.Transport.Tcp.Stream.{int_of-pos}
use afi920_ros2_driver.Transport.StreamReceiver.{
  Outcome, result, waits, StreamReceiver, IsStreamReceiver, Promised, IsCount,
}
use afi920_ros2_driver.Transport.Udp.{
  UdpReceiver, Bind, RecvFrom, arrived, timed_out, recv_error, connect, close, receive, is_open,
  received_from, socket_options, Outcome, result,
}

-- What the system will answer: to each `Connect`, and to the calls of `recvfrom`.
pub record UdpSystem : Type 0 where
  pub binds : ℕ → Bind
  pub answers : List RecvFrom

abbrev pub outcome_of :
    UdpSystem → Outcome UdpReceiver (List RecvFrom) → Outcome UdpReceiver UdpSystem
outcome_of w (result rc xs r rest) = result rc xs r (record w { answers = rest })
outcome_of w waits = waits

instance abbrev pub udp_stream_receiver : StreamReceiver UdpReceiver UdpSystem
udp_stream_receiver = record {
  connect = λ r w.
      let (rc, after, gone) = connect r (w.binds 0) in
      (rc, after, record w { binds = λ k. w.binds (suc k) });
  receive = λ r w size. outcome_of w (receive r w.answers size);
  close = λ r. (close r).0;
  is_open = is_open;
}

connect_opens :
    (r : UdpReceiver) (b : Bind)
    → (((connect r b).0 ≡ pos 0) × (is_open (connect r b).1 ≡ true))
      ⊎ (((connect r b).0 ≡ negsuc 0) × (is_open (connect r b).1 ≡ false))
unfolding connect close is_open
connect_opens r b = go r.socket_fd
  where
    Opens : UdpReceiver → Type 0
    Opens r =
        (((connect r b).0 ≡ pos 0) × (is_open (connect r b).1 ≡ true))
        ⊎ (((connect r b).0 ≡ negsuc 0) × (is_open (connect r b).1 ≡ false))

    go : (fd : ℤ) → Opens (record r { socket_fd = fd })
    go fd = elim (Bool-cases (is_negative b.socket)) [
      | inl e ↦ inr (rw e refl, rw (e, e) refl)
      | inr e ↦ elim (Bool-cases (b.bound (socket_options (record r { socket_fd = b.socket })))) [
        | inl f ↦ inl (bound fd e f)
        | inr f ↦ inr (unbound fd e f)
      ]
    ]
      where
        bound :
            (fd : ℤ)
            → is_negative b.socket ≡ false
            → b.bound (socket_options (record r { socket_fd = b.socket })) ≡ true
            → ((connect (record r { socket_fd = fd }) b).0 ≡ pos 0)
              × (is_open (connect (record r { socket_fd = fd }) b).1 ≡ true)
        bound (pos n) e f = (rw (e, f) refl, rw (e, f, e) refl)
        bound (negsuc n) e f = (rw (e, f) refl, rw (e, f, e) refl)

        unbound :
            (fd : ℤ)
            → is_negative b.socket ≡ false
            → b.bound (socket_options (record r { socket_fd = b.socket })) ≡ false
            → ((connect (record r { socket_fd = fd }) b).0 ≡ negsuc 0)
              × (is_open (connect (record r { socket_fd = fd }) b).1 ≡ false)
        unbound (pos n) e f = (rw (e, f) refl, rw (e, f) refl)
        unbound (negsuc n) e f = (rw (e, f) refl, rw (e, f) refl)

pub received_from-IsCount :
    (answer : RecvFrom) (size : ℕ)
    → size < 2 ^ 31
    → (length (received_from answer size).1 ≤ size)
      × IsCount (received_from answer size).0 (received_from answer size).1
unfolding received_from
received_from-IsCount (arrived datagram) size h =
    let e = int_of-pos (length (take size datagram)) (omega (arith, length-take size datagram)) in
    rw e (omega (arith, length-take size datagram), inr refl)
received_from-IsCount timed_out size h = (omega arith, inl refl)
received_from-IsCount recv_error size h = (omega arith, tt)

receive_counts :
    (r : UdpReceiver) (w : UdpSystem) (size : ℕ)
    → size < 2 ^ 31
    → Promised size (outcome_of w (receive r w.answers size))
unfolding receive
receive_counts r w size h = go r.socket_fd w.answers
  where
    go :
        (fd : ℤ) (answers : List RecvFrom)
        → Promised size (outcome_of w (receive (record r { socket_fd = fd }) answers size))
    go (negsuc n) answers = (omega arith, tt)
    go (pos n) [] = tt
    go (pos n) (answer ∷ rest) = received_from-IsCount answer size h

receive-close :
    (r : UdpReceiver) (w : UdpSystem) (size : ℕ)
    → outcome_of w (receive (close r).0 w.answers size) ≡ result (negsuc 0) [] (close r).0 w
unfolding receive close
receive-close r w size = go r.socket_fd
  where
    go :
        (fd : ℤ)
        → outcome_of w (receive (close (record r { socket_fd = fd })).0 w.answers size)
          ≡ result (negsuc 0) [] (close (record r { socket_fd = fd })).0 w
    go (pos n) = refl
    go (negsuc n) = refl

close_closes : (r : UdpReceiver) → is_open (close r).0 ≡ false
unfolding is_open close
close_closes r = go r.socket_fd
  where
    go : (fd : ℤ) → is_open (close (record r { socket_fd = fd })).0 ≡ false
    go (pos n) = refl
    go (negsuc n) = refl

-- The UDP receiver keeps the promises: `Connect` returns 0 if it leaves the receiver open and -1 if
-- not; `Receive`, with a buffer of less than 2^31 bytes, writes no more than the buffer holds, and
-- returns a negative number, 0, or the number of bytes that it wrote; after `Close` the receiver is not
-- open, and `Receive` returns -1 without asking the system.
pub UdpReceiver-IsStreamReceiver : IsStreamReceiver UdpReceiver UdpSystem
UdpReceiver-IsStreamReceiver = record {
  connect_opens = λ r w o. connect_opens r (w.binds 0);
  receive_counts = receive_counts;
  close_closes = close_closes;
  receive_closed = λ r w size. (_, receive-close r w size);
}
