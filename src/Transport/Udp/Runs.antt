-- ===== src/Transport/Udp/Runs.antt =====
-- The theorems on the UDP receiver at concrete calls.
use afi920_ros2_driver.Base.{◌==◌, pos, ℕ, ◌≡◌, refl, List, [], ◌∷◌, ◌++◌}
use afi920_ros2_driver.Transport.Udp.{Bind, udp_receiver_init, arrived, receive, received_from}
use afi920_ros2_driver.Transport.StreamReceiver.{result}
use afi920_ros2_driver.Transport.Udp.Ledger.{
  Call, call_connect, call_close, all_handed_out, run, calls_ledger,
}
use afi920_ros2_driver.Transport.Tcp.{close_valid, int_of}

abbrev bound_at : ℕ → Bind
bound_at fd = record { socket = pos fd; bound = λ o. o.bound_port == 30509 }

abbrev calls : List Call
calls = call_connect (bound_at 3) ∷ call_connect (bound_at 4) ∷ call_close ∷ call_close ∷ []

calls_ledger_example :
    all_handed_out calls
    ≡ (run (udp_receiver_init 30509) calls).1
      ++ close_valid (run (udp_receiver_init 30509) calls).0.socket_fd
calls_ledger_example = calls_ledger calls 30509

-- What does not fit is lost.
cut_datagram :
    receive (record (udp_receiver_init 1) { socket_fd = pos 3 }) (arrived (1 ∷ 2 ∷ 3 ∷ []) ∷ []) 2
    ≡ result (pos 2) (1 ∷ 2 ∷ []) (record (udp_receiver_init 1) { socket_fd = pos 3 }) []
unfolding receive received_from int_of
cut_datagram = refl
