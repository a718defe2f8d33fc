-- ===== src/Transport/Udp/Ledger.antt =====
-- The descriptors of the UDP receiver.
use afi920_ros2_driver.Base.{
  Bool-cases, ℤ, pos, negsuc, ℕ, ◌+◌, ◌*◌, ◌<◌, ◌≡◌, refl, sym, ap, ◌∙◌, inl, inr, Bool, List, [],
  ◌∷◌, ◌++◌, append-nil, append_assoc, arith,
}
use afi920_ros2_driver.Transport.Tcp.{close_valid}
use afi920_ros2_driver.Transport.Udp.{
  SocketOptions, UdpReceiver, Bind, connect, close, socket_options, udp_receiver_init,
}

-- What the owner of a receiver may call.
pub data Call : Type 0 where
  call_connect : Bind → Call
  call_close : Call

-- The descriptor that the system hands out to a call.
abbrev pub handed_out : Call → List ℤ
handed_out (call_connect b) = close_valid b.socket
handed_out call_close = []

-- The receiver after a call, and what was closed.
abbrev pub step : UdpReceiver → Call → UdpReceiver × List ℤ
step r (call_connect b) = ((connect r b).1, (connect r b).2)
step r call_close = close r

abbrev pub run : UdpReceiver → List Call → UdpReceiver × List ℤ
run r [] = (r, [])
run r (call ∷ calls) =
    let (next, gone) = step r call in let (last, closed) = run next calls in (last, gone ++ closed)

abbrev pub all_handed_out : List Call → List ℤ
all_handed_out [] = []
all_handed_out (call ∷ calls) = handed_out call ++ all_handed_out calls

step_ledger :
    (r : UdpReceiver) (call : Call)
    → close_valid r.socket_fd ++ handed_out call
      ≡ (step r call).1 ++ close_valid (step r call).0.socket_fd
unfolding close connect
step_ledger r call = go r.socket_fd call
  where
    open_on : ℤ → UdpReceiver
    open_on fd = record r { socket_fd = fd }

    Kept : ℤ → Call → Type 0
    Kept fd call =
        close_valid fd ++ handed_out call
        ≡ (step (open_on fd) call).1 ++ close_valid (step (open_on fd) call).0.socket_fd

    connected :
        (fd socket : ℤ) (bound : SocketOptions → Bool)
        → Kept fd (call_connect (record { socket = socket; bound = bound }))
    connected (pos n) (negsuc m) bound = refl
    connected (negsuc n) (negsuc m) bound = refl
    connected (pos n) (pos m) bound = elim (Bool-cases (bound (socket_options (open_on (pos m))))) [
      | inl e ↦ rw e refl
      | inr e ↦ rw e refl
    ]
    connected (negsuc n) (pos m) bound =
        elim (Bool-cases (bound (socket_options (open_on (pos m))))) [
          | inl e ↦ rw e refl
          | inr e ↦ rw e refl
        ]

    go : (fd : ℤ) (call : Call) → Kept fd call
    go (pos n) call_close = refl
    go (negsuc n) call_close = refl
    go fd (call_connect b) = connected fd b.socket b.bound

-- Whatever the owner calls in whatever order and whatever the system answers, the descriptors that
-- the system hands out are closed in the same order, each exactly once, but for the last one if the
-- receiver is still open.
pub calls_ledger :
    (calls : List Call) (port : ℕ)
    → all_handed_out calls
      ≡ (run (udp_receiver_init port) calls).1
        ++ close_valid (run (udp_receiver_init port) calls).0.socket_fd
calls_ledger calls port = go calls (udp_receiver_init port)
  where
    go :
        (calls : List Call) (r : UdpReceiver)
        → close_valid r.socket_fd ++ all_handed_out calls
          ≡ (run r calls).1 ++ close_valid (run r calls).0.socket_fd
    go [] r = append-nil (close_valid r.socket_fd)
    go (call ∷ calls) r =
        sym (append_assoc (close_valid r.socket_fd) (handed_out call) (all_handed_out calls))
        ∙ ap (λ (l : List ℤ). l ++ all_handed_out calls) (step_ledger r call)
        ∙ append_assoc (step r call).1 (close_valid (step r call).0.socket_fd)
            (all_handed_out calls)
        ∙ ap (λ (l : List ℤ). (step r call).1 ++ l) (go calls (step r call).0)
        ∙ sym (
            append_assoc (step r call).1 (run (step r call).0 calls).1
              (close_valid (run (step r call).0 calls).0.socket_fd))

-- The timeout that the socket gets is the configured one.
pub socket_options_timeout :
    (r : UdpReceiver)
    → ((socket_options r).timeout_sec * 1_000_000 + (socket_options r).timeout_usec
        ≡ r.timeout_ms * 1000)
      × ((socket_options r).timeout_usec < 1_000_000)
unfolding socket_options
socket_options_timeout r = (omega arith, omega arith)
