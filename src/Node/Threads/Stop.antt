-- ===== src/Node/Threads/Stop.antt =====
-- The rounds of a loop on a receiver that has been closed.
use afi920_ros2_driver.Base.{ok, ℕ, zero, suc, ◌≡◌, refl, List, [], append-nil, arith, memcpy_whole}
use afi920_ros2_driver.Node.Types.{Clock, Node, Event}
use afi920_ros2_driver.Node.Threads.{
  Process, Clock, thread_loop, thread_round, handle_received, Node, Event, stopped,
}
use afi920_ros2_driver.Transport.StreamReceiver.{StreamReceiver, IsStreamReceiver}

module _ {ℓ κ} {S : Type ℓ} {W : Type κ} ⦃receiver : StreamReceiver S W⦄
    ⦃laws : IsStreamReceiver S W⦄ (process : Process) (size : ℕ) (clock : ℕ → Clock) where
  -- On a receiver that has been closed, no round of the loop waits for the system, changes the node or
  -- publishes anything.
  pub thread_loop-close_stops :
      (rounds : ℕ) (buf : List ℕ) (s : S) (w : W) (n : Node) (events : List Event)
      → (rest : W) × (thread_loop process size clock rounds buf (receiver.close s) w n events
          ≡ ok (stopped (receiver.close s) rest n events))
  unfolding thread_loop thread_round handle_received
  thread_loop-close_stops zero buf s w n events = (w, refl)
  thread_loop-close_stops (suc rounds) buf s w n events =
      let (after, e) = laws.receive_closed s w size in
      let (rest, f) = thread_loop-close_stops rounds buf s after n events in
      (rest, rw (e, memcpy_whole buf [] (omega arith), append-nil events) f)
