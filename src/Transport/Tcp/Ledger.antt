-- ===== src/Transport/Tcp/Ledger.antt =====
-- The descriptors of the TCP client.
use afi920_ros2_driver.Base.{
  if◌then◌else◌, Bool-cases, ℤ, pos, negsuc, is_negative, ◌≡◌, refl, sym, ap, ◌∙◌, ◌≢◌, inl, inr,
  true, false, not, ◌||◌, List, [], ◌∷◌, ◌++◌, append-nil, append_assoc,
}
use afi920_ros2_driver.Transport.Tcp.{
  TcpStreamClient, tcp_stream_client_init, Dial, connect, close, close_valid, try_reconnect,
}
use afi920_ros2_driver.Transport.Tcp.Reconnect.{
  reachable, try_reconnect-cases, try_reconnect_stopped,
}

-- What happens to a client after its first `Connect`.
pub data Call : Type 0 where
  call_reconnect : Dial → Call
  call_close : Call

-- The descriptor that the system hands out to a call: none to a client that is closed for good.
abbrev pub handed_out : TcpStreamClient → Call → List ℤ
handed_out c (call_reconnect d) = if c.running then close_valid d.socket else []
handed_out c call_close = []

abbrev pub step : TcpStreamClient → Call → TcpStreamClient × List ℤ
step c (call_reconnect d) = ((try_reconnect c d).1, (try_reconnect c d).2)
step c call_close = close c

-- The client at the end, what was handed out, and what was closed.
abbrev pub run : TcpStreamClient → List Call → TcpStreamClient × List ℤ × List ℤ
run c [] = (c, [], [])
run c (call ∷ calls) =
    let (next, gone) = step c call in
    let (last, given, closed) = run next calls in (last, handed_out c call ++ given, gone ++ closed)

close_ledger :
    (c : TcpStreamClient)
    → close_valid c.socket_fd ++ [] ≡ (close c).1 ++ close_valid (close c).0.socket_fd
unfolding close
close_ledger c = go c.socket_fd
  where
    go :
        (fd : ℤ)
        → close_valid fd ++ []
          ≡ close_valid fd ++ close_valid (if is_negative fd then fd else negsuc 0)
    go (pos n) = refl
    go (negsuc n) = refl

step_ledger :
    (c : TcpStreamClient) (call : Call)
    → close_valid c.socket_fd ++ handed_out c call
      ≡ (step c call).1 ++ close_valid (step c call).0.socket_fd
step_ledger c call_close = close_ledger c
step_ledger c (call_reconnect d) = elim (Bool-cases c.running) [
  | inl e ↦ elim (try_reconnect-cases c d e) [
    | inl (r, f) ↦
        rw (f, e)
          (ap (λ (l : List ℤ). l ++ close_valid d.socket)
            (sym (append-nil (close_valid c.socket_fd))))
    | inr (r, f) ↦ rw (f, e) (sym (append-nil (close_valid c.socket_fd ++ close_valid d.socket)))
  ]
  | inr e ↦ rw (try_reconnect_stopped c d e, e) (append-nil (close_valid c.socket_fd))
]

connect_ledger :
    (d : Dial)
    → close_valid d.socket
      ≡ (connect tcp_stream_client_init d).2
        ++ close_valid (connect tcp_stream_client_init d).1.socket_fd
unfolding connect
connect_ledger d = elim (Bool-cases (is_negative d.socket)) [
  | inl e ↦ rw e refl
  | inr e ↦
      elim (Bool-cases
        (not d.address_parsed || not d.connect_started || not d.selected || not d.error_free)) [
          | inl r ↦ rw (e, r) refl
          | inr r ↦ rw (e, r, e) refl
        ]
]

-- A client connects, and then is closed or tries to connect again, in whatever order and whatever the
-- system answers. Then the descriptors that the system hands out are closed in the same order, each
-- exactly once, but for the last one if it is still held.
pub run_ledger :
    (first : Dial) (calls : List Call)
    → (let c = (connect tcp_stream_client_init first).1 in
        close_valid first.socket ++ (run c calls).1
        ≡ ((connect tcp_stream_client_init first).2 ++ (run c calls).2)
          ++ close_valid (run c calls).0.socket_fd)
run_ledger first calls =
    ap (λ (l : List ℤ). l ++ (run c calls).1) (connect_ledger first)
    ∙ append_assoc gone (close_valid c.socket_fd) (run c calls).1
    ∙ ap (λ (l : List ℤ). gone ++ l) (go calls c)
    ∙ sym (append_assoc gone (run c calls).2 (close_valid (run c calls).0.socket_fd))
  where
    c : TcpStreamClient
    c = (connect tcp_stream_client_init first).1

    gone : List ℤ
    gone = (connect tcp_stream_client_init first).2

    go :
        (calls : List Call) (c : TcpStreamClient)
        → close_valid c.socket_fd ++ (run c calls).1
          ≡ (run c calls).2 ++ close_valid (run c calls).0.socket_fd
    go [] c = append-nil (close_valid c.socket_fd)
    go (call ∷ calls) c =
        let next = (step c call).0 in
        let closed = (step c call).1 in
        sym (append_assoc (close_valid c.socket_fd) (handed_out c call) (run next calls).1)
        ∙ ap (λ (l : List ℤ). l ++ (run next calls).1) (step_ledger c call)
        ∙ append_assoc closed (close_valid next.socket_fd) (run next calls).1
        ∙ ap (λ (l : List ℤ). closed ++ l) (go calls next)
        ∙ sym (append_assoc closed (run next calls).2 (close_valid (run next calls).0.socket_fd))

-- `Connect` on a client that holds a descriptor, when no connection can be made, closes that descriptor
-- and keeps it, so that `Close` closes it once more.
pub connect-close_twice :
    (c : TcpStreamClient) (d : Dial)
    → is_negative c.socket_fd ≡ false
    → reachable d ≡ false
    → (connect c d).2 ++ (close (connect c d).1).1
      ≡ (c.socket_fd ∷ close_valid d.socket) ++ c.socket_fd ∷ []
unfolding connect close
connect-close_twice c d held u = elim (Bool-cases (is_negative d.socket)) [
  | inl e ↦ rw (held, e, held) refl
  | inr e ↦
      elim (Bool-cases
        (not d.address_parsed || not d.connect_started || not d.selected || not d.error_free)) [
          | inl r ↦ rw (held, e, r, held) refl
          | inr r ↦
              let there : reachable d ≡ true = rw (e, r) refl in
              absurd (contradicted (sym there ∙ u))
        ]
]
  where
    contradicted : true ≢ false
    contradicted = λ e. cc
