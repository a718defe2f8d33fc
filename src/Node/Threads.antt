-- ===== src/Node/Threads.antt =====
-- The receiving threads of src/afi920_node.cpp, over any receiver, and the destructor. The loop is
-- recursion on the number of times that `running_` is still read as true; the receiver answers as the
-- state `W` of the system says, and the clocks of a round are those of the rounds that are left.
pub mod Sound
pub mod Stop
pub mod Stream
pub mod Datagrams
mod Runs
use afi920_ros2_driver.Base.{
  ltb, if◌then◌else◌, ℤ, pos, negsuc, length, take, drop, replicate, Access, ok, fault, ◌>>=◌,
  memcpy, ℕ, zero, suc, ◌*◌, Bool, List, [], ◌++◌,
}
use afi920_ros2_driver.Node.Spi.{process_spi_datagram}
use afi920_ros2_driver.Node.Shi.{process_shi_datagram}
use afi920_ros2_driver.Node.Rdi.{process_rdi_datagram}
use afi920_ros2_driver.Node.Types.{Node, Clock, Event}
use afi920_ros2_driver.Transport.StreamReceiver.{Outcome, result, waits, StreamReceiver}

-- The thread has left the loop, or waits in `Receive`; with what has been published.
pub data Thread {ℓ κ} (S : Type ℓ) (W : Type κ) : Type (ℓ ⊔ κ) where
  stopped : S → W → Node → List Event → Thread S W
  receiving : S → W → Node → List Event → Thread S W

abbrev pub Process : Type 0
Process = Node → Clock → List ℕ → Access (Node × List Event)

-- The first `n` bytes behind the pointer to the buffer; behind its end is a fault.
unfoldable pub front_of : List ℕ → ℕ → Access (List ℕ)
front_of buf n = if ltb (length buf) n then fault else ok (take n buf)

-- A round with `n` bytes in the buffer; `n <= 0` goes on to the next.
unfoldable pub handle_received : Process → Node → Clock → ℤ → List ℕ → Access (Node × List Event)
unfolding front_of
handle_received process n clock (negsuc m) buf = ok (n, [])
handle_received process n clock (pos zero) buf = ok (n, [])
handle_received process n clock (pos (suc m)) buf = front_of buf (suc m) >>= process n clock

-- The buffer with `xs` written at its front.
abbrev pub overwrite : List ℕ → List ℕ → List ℕ
overwrite xs buf = xs ++ drop (length xs) buf

-- How the loop goes on.
abbrev pub Next {ℓ κ} : Type ℓ → Type κ → Type (ℓ ⊔ κ)
Next S W = List ℕ → S → W → Node → List Event → Access (Thread S W)

-- One round of the loop, once `Receive` has returned or waits. What it writes goes to the front of the
-- buffer, and a write past its end is a fault.
unfoldable pub thread_round {ℓ κ} :
    {S : Type ℓ} {W : Type κ}
    → Process
    → Clock
    → Outcome S W
    → List ℕ
    → S
    → W
    → Node
    → List Event
    → Next S W
    → Access (Thread S W)
unfolding handle_received
thread_round process clock waits buf s w n events next = ok (receiving s w n events)
thread_round process clock (result rc xs s1 w1) buf s w n events next = do
  written ← memcpy buf xs (length xs)
  (n1, published) ← handle_received process n clock rc written
  next written s1 w1 n1 (events ++ published)

module _ {ℓ κ} {S : Type ℓ} {W : Type κ} ⦃receiver : StreamReceiver S W⦄ (process : Process)
    (buf_size : ℕ) (clock : ℕ → Clock) where
  unfoldable pub thread_loop : ℕ → List ℕ → S → W → Node → List Event → Access (Thread S W)
  unfolding thread_round
  thread_loop zero buf s w n events = ok (stopped s w n events)
  thread_loop (suc rounds) buf s w n events =
      thread_round process (clock rounds) (receiver.receive s w buf_size) buf s w n events
        (thread_loop rounds)

abbrev pub udp_buf_size : ℕ
udp_buf_size = 400 * 1024

abbrev pub tcp_buf_size : ℕ
tcp_buf_size = 512 * 1024

abbrev pub small_buf_size : ℕ
small_buf_size = 4 * 1024

-- The size of the buffer depends on whether `transport_mode` is "tcp".
abbrev pub rdi_buf_size : Bool → ℕ
rdi_buf_size is_tcp = if is_tcp then tcp_buf_size else udp_buf_size

module _ {ℓ κ} {S : Type ℓ} {W : Type κ} ⦃receiver : StreamReceiver S W⦄ (rounds : ℕ)
    (clock : ℕ → Clock) (s : S) (w : W) (n : Node) where
  unfoldable pub rdi_thread_func : Bool → Access (Thread S W)
  unfolding thread_loop process_rdi_datagram
  rdi_thread_func is_tcp =
      let size = rdi_buf_size is_tcp in
      thread_loop process_rdi_datagram size clock rounds (replicate size 0) s w n []

  unfoldable pub shi_thread_func : Access (Thread S W)
  unfolding thread_loop process_shi_datagram
  shi_thread_func =
      thread_loop process_shi_datagram small_buf_size clock rounds (replicate small_buf_size 0) s w
        n []

  unfoldable pub spi_thread_func : Access (Thread S W)
  unfolding thread_loop process_spi_datagram
  spi_thread_func =
      thread_loop process_spi_datagram small_buf_size clock rounds (replicate small_buf_size 0) s w
        n []
