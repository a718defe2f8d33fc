-- ===== src/Transport/Tcp/Receiver.antt =====
-- The TCP client keeps what a receiver promises.
use afi920_ros2_driver.Base.{
  ltb, leb, if◌then◌else◌, lt→ltb, le→ltb, le→leb, lt→leb, Bool-cases, ℤ, pos, negsuc, is_negative,
  length, get_or, take, drop, length-append, length-take, ℕ, suc, ◌+◌, ◌-◌, ◌^◌, ◌≤◌, ◌<◌, ◌≡◌,
  refl, ap, ◌⊎◌, inl, inr, Bool, true, false, not, ◌||◌, List, [], ◌∷◌, ◌++◌, arith,
}
use afi920_ros2_driver.Transport.Tcp.Reconnect.{try_reconnect_stopped, try_reconnect-cases}
use afi920_ros2_driver.Wire.{join_be32}
use afi920_ros2_driver.Transport.Tcp.Stream.{int_of-pos}
use native.Mathlib.Decide.{dec_le}
use afi920_ros2_driver.Transport.StreamReceiver.{
  Outcome, result, waits, StreamReceiver, IsStreamReceiver, Promised, IsCount,
}
use afi920_ros2_driver.Transport.Tcp.{
  TcpStreamClient, Dial, Recv, got, closed, interrupted, failed, Exact, complete, broken, waiting,
  Received, returned, blocked, connect, close, receive, is_open, recv_exact, receive_header,
  receive_rest, try_reconnect, join_be32,
}

-- What the system will answer: to a `Connect` within each call, and to the calls of `recv`.
pub record TcpSystem : Type 0 where
  pub dials : ℕ → Dial
  pub answers : List Recv

abbrev pub outcome_of : TcpSystem → Received → Outcome TcpStreamClient TcpSystem
outcome_of w (returned rc xs c gone answers) =
    result rc xs c (record { dials = λ k. w.dials (suc k); answers = answers })
outcome_of w blocked = waits

instance abbrev pub tcp_stream_receiver : StreamReceiver TcpStreamClient TcpSystem
tcp_stream_receiver = record {
  connect = λ c w.
      let (rc, after, gone) = connect c (w.dials 0) in
      (rc, after, record w { dials = λ k. w.dials (suc k) });
  receive = λ c w size. outcome_of w (receive c (w.dials 0) w.answers size);
  close = λ c. (close c).0;
  is_open = is_open;
}

connect_opens :
    (c : TcpStreamClient) (d : Dial)
    → is_open c ≡ false
    → (((connect c d).0 ≡ pos 0) × (is_open (connect c d).1 ≡ true))
      ⊎ (((connect c d).0 ≡ negsuc 0) × (is_open (connect c d).1 ≡ false))
unfolding connect is_open
connect_opens c d o = elim (Bool-cases (is_negative d.socket)) [
  | inl e ↦ inr (rw e refl, rw e (still (is_negative c.socket_fd)))
  | inr e ↦
      elim (Bool-cases
        (not d.address_parsed || not d.connect_started || not d.selected || not d.error_free)) [
          | inl f ↦ inr (rw (e, f) refl, rw (e, f) (still (is_negative c.socket_fd)))
          | inr f ↦ inl (rw (e, f) refl, rw (e, f) refl)
        ]
]
  where
    still : (b : Bool) → (if b then c else record c { opened = false }).opened ≡ false
    still true = o
    still false = refl

-- What `recv_exact` puts together has the size that was asked for, or at most that if it breaks off.
abbrev IsWhole : ℕ → Exact → Type 0
IsWhole n (complete xs answers) = length xs ≡ n
IsWhole n (broken xs answers) = length xs ≤ n
IsWhole n waiting = Unit

-- Before the next answer is looked at.
enough :
    (n : ℕ) (received : List ℕ) (answers : List Recv) (next : Exact)
    → length received ≤ n
    → (length received < n → IsWhole n next)
    → IsWhole n (if leb n (length received) then complete received answers else next)
enough n received answers next h k = elim (dec_le n (length received)) [
  | yes l ↦ rw (le→leb n (length received) l) (omega arith)
  | no l ↦ rw (lt→leb n (length received) (omega arith)) (k (omega arith))
]

piece_taken :
    (n : ℕ) (received xs : List ℕ) (answers : List Recv) (next : Exact)
    → length received < n
    → (length (received ++ xs) ≤ n → IsWhole n next)
    → IsWhole n (
        if ltb (n - length received) (length xs)
        then complete
            (received ++ take (n - length received) xs)
            (got (drop (n - length received) xs) ∷ answers)
        else next)
piece_taken n received xs answers next h k = elim (dec_le (length xs) (n - length received)) [
  | yes l ↦
      rw (le→ltb (n - length received) (length xs) l) (k (omega (arith, length-append received xs)))
  | no l ↦
      let asked = n - length received in
      rw (lt→ltb asked (length xs) (omega arith))
        (omega (arith, length-append received (take asked xs), length-take asked xs))
]

recv_exact-IsWhole :
    (n : ℕ) (received : List ℕ) (answers : List Recv)
    → length received ≤ n
    → IsWhole n (recv_exact n received answers)
unfolding recv_exact
recv_exact-IsWhole n received [] h = enough n received [] waiting h (λ _. tt)
recv_exact-IsWhole n received (got xs ∷ answers) h =
    enough n received (got xs ∷ answers) _ h
      (λ l. piece_taken n received xs answers _ l (recv_exact-IsWhole n (received ++ xs) answers))
recv_exact-IsWhole n received (interrupted ∷ answers) h =
    enough n received (interrupted ∷ answers) _ h (λ _. recv_exact-IsWhole n received answers h)
recv_exact-IsWhole n received (closed ∷ answers) h =
    enough n received (closed ∷ answers) (broken received answers) h (λ _. h)
recv_exact-IsWhole n received (failed ∷ answers) h =
    enough n received (failed ∷ answers) (broken received answers) h (λ _. h)

receive_rest-Promised :
    (c : TcpStreamClient) (w : TcpSystem) (size len : ℕ) (hdr : List ℕ) (body : Exact)
    → size < 2 ^ 31
    → 8 + len ≤ size
    → length hdr ≡ 8
    → IsWhole len body
    → Promised size (outcome_of w (receive_rest c hdr body))
unfolding receive_rest
receive_rest-Promised c w size len hdr (complete body answers) small fits h e =
    rw (int_of-pos (8 + length body) (omega arith))
      (omega (arith, length-append hdr body), inr (omega (arith, length-append hdr body)))
receive_rest-Promised c w size len hdr (broken body answers) small fits h e =
    (omega (arith, length-append hdr body), tt)
receive_rest-Promised c w size len hdr waiting small fits h e = tt

receive_header-Promised :
    (c : TcpStreamClient) (w : TcpSystem) (size : ℕ) (header : Exact)
    → size < 2 ^ 31
    → IsWhole 8 header
    → Promised size (outcome_of w (receive_header c size header))
unfolding receive_header
receive_header-Promised c w size (complete hdr answers) small e =
    let len = join_be32 (get_or hdr 4 0) (get_or hdr 5 0) (get_or hdr 6 0) (get_or hdr 7 0) in
    elim (dec_le (8 + len) size) [
      | yes l ↦ rw (le→ltb size (8 + len) l) (
          receive_rest-Promised c w size len hdr (recv_exact len [] answers) small l e
            (recv_exact-IsWhole len [] answers (omega arith)))
      | no l ↦ rw (lt→ltb size (8 + len) (omega arith)) (omega arith, tt)
    ]
receive_header-Promised c w size (broken hdr answers) small e = (omega arith, tt)
receive_header-Promised c w size waiting small e = tt

try_reconnect-IsCount : (c : TcpStreamClient) (d : Dial) → IsCount (try_reconnect c d).0 []
try_reconnect-IsCount c d = elim (Bool-cases c.running) [
  | inl e ↦ elim (try_reconnect-cases c d e) [ inl (r, f) ↦ rw f (inl refl) | inr (r, f) ↦ rw f tt ]
  | inr e ↦ rw (stopped e) tt
]
  where
    stopped : c.running ≡ false → (try_reconnect c d).0 ≡ negsuc 0
    stopped e = ap (λ (x : ℤ × TcpStreamClient × List ℤ). x.0) (try_reconnect_stopped c d e)

receive_counts :
    (c : TcpStreamClient) (w : TcpSystem) (size : ℕ)
    → size < 2 ^ 31
    → Promised size (outcome_of w (receive c (w.dials 0) w.answers size))
unfolding receive
receive_counts c w size h = elim (Bool-cases c.opened) [
  | inl e ↦ simp e (
      receive_header-Promised c w size (recv_exact 8 [] w.answers) h
        (recv_exact-IsWhole 8 [] w.answers (omega arith)))
  | inr e ↦ simp e (omega arith, try_reconnect-IsCount c (w.dials 0))
]

receive-close :
    (c : TcpStreamClient) (w : TcpSystem) (size : ℕ)
    → receive (close c).0 (w.dials 0) w.answers size
      ≡ returned (negsuc 0) [] (close c).0 [] w.answers
unfolding receive close try_reconnect
receive-close c w size = refl

close_closes : (c : TcpStreamClient) → is_open (close c).0 ≡ false
unfolding is_open close
close_closes c = refl

-- The TCP client keeps the promises too: `Connect`, called while it is not open, returns 0 if it leaves
-- the client open and -1 if not; `Receive`, with a buffer of less than 2^31 bytes, writes no more than
-- the buffer holds, also where it breaks off, and returns a negative number, 0, or the number of bytes
-- that it wrote; after `Close` the client is not open, and `Receive` returns -1 without asking the system.
pub TcpStreamClient-IsStreamReceiver : IsStreamReceiver TcpStreamClient TcpSystem
TcpStreamClient-IsStreamReceiver = record {
  connect_opens = λ c w o. connect_opens c (w.dials 0) o;
  receive_counts = receive_counts;
  close_closes = close_closes;
  receive_closed = λ c w size. (_, ap (outcome_of w) (receive-close c w size));
}
