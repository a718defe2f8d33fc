-- ===== src/Node/Threads/Runs.antt =====
-- The theorems on the threads at concrete receivers.
use afi920_ros2_driver.Base.{
  pos, negsuc, ok, ◌>>=◌, Safe, ℕ, ◌≡◌, refl, true, false, List, [], ◌∷◌, arith,
}
use afi920_ros2_driver.Node.Spi.Total.{IsSpiEvent}
use afi920_ros2_driver.Node.Threads.Datagrams.{process_answers, threads_datagrams}
use afi920_ros2_driver.Node.Shi.{process_shi_datagram}
use afi920_ros2_driver.Node.Spi.{process_spi_datagram}
use afi920_ros2_driver.Node.Threads.{udp_buf_size, small_buf_size}
use afi920_ros2_driver.Transport.Udp.{is_open}
use afi920_ros2_driver.Node.Rdi.Total.{IsEvent}
use afi920_ros2_driver.Node.Threads.Stream.{process_each, rdi_thread_func_messages}
use afi920_ros2_driver.Node.Shi.Total.{IsHealthEvent}
use afi920_ros2_driver.Someip.Tp.Bounded.{IsReassembler}
use afi920_ros2_driver.Node.Rdi.{process_rdi_datagram}
use afi920_ros2_driver.Wire.{pack_be32}
use afi920_ros2_driver.Node.Threads.{
  rdi_thread_func, Node, process_rdi_datagram, stopped, shi_thread_func, spi_thread_func,
}
use afi920_ros2_driver.Node.Threads.Sound.{
  EndsWell, ShiOf, rdi_thread_func-EndsWell, SpiOf, side_threads-EndsWell,
}
use afi920_ros2_driver.Node.Types.{Clock, node_init, Node}
use afi920_ros2_driver.Node.Samples.{clock}
use afi920_ros2_driver.Transport.Udp.{UdpReceiver, udp_receiver_init, arrived, timed_out}
use afi920_ros2_driver.Transport.Udp.Receiver.{
  UdpSystem, udp_stream_receiver, UdpReceiver-IsStreamReceiver,
}
use afi920_ros2_driver.Transport.Tcp.{TcpStreamClient, tcp_stream_client_init, Dial, Recv, got}
use afi920_ros2_driver.Transport.Tcp.Receiver.{TcpSystem, tcp_stream_receiver}
use afi920_ros2_driver.Transport.Tcp.Stream.{Message, piece, done, Arrives, none_left, next_one}

abbrev udp_system : UdpSystem
udp_system = record {
  binds = λ k. record { socket = negsuc 0; bound = λ o. false };
  answers = timed_out ∷ arrived (1 ∷ 2 ∷ 3 ∷ []) ∷ [];
}

abbrev listening : UdpReceiver
listening = record (udp_receiver_init 30509) { socket_fd = pos 3 }

abbrev clocks : ℕ → Clock
clocks k = clock

rdi_thread_func-EndsWell_example :
    Safe
      (EndsWell (λ (m : Node). IsReassembler m.rdi_tp) IsEvent)
      (rdi_thread_func 3 clocks listening udp_system node_init false)
rdi_thread_func-EndsWell_example =
    rdi_thread_func-EndsWell ⦃laws = UdpReceiver-IsStreamReceiver⦄ 3 clocks listening udp_system
      node_init false (omega arith)

side_threads-EndsWell_example :
    Safe
      (EndsWell (ShiOf node_init) IsHealthEvent)
      (shi_thread_func 3 clocks listening udp_system node_init)
    × Safe
        (EndsWell (SpiOf node_init) IsSpiEvent)
        (spi_thread_func 3 clocks listening udp_system node_init)
side_threads-EndsWell_example =
    side_threads-EndsWell ⦃laws = UdpReceiver-IsStreamReceiver⦄ 3 clocks listening udp_system
      node_init

abbrev open_client : TcpStreamClient
open_client = record tcp_stream_client_init { socket_fd = pos 5; opened = true }

abbrev no_dial : ℕ → Dial
no_dial k = record {
  socket = negsuc 0;
  address_parsed = false;
  connect_started = false;
  selected = false;
  error_free = false;
}

abbrev message : Message
message = record { id = 0x6000_8002; body = 1 ∷ 2 ∷ 3 ∷ [] }

abbrev answers : List Recv
answers = got (96 ∷ 0 ∷ 128 ∷ 2 ∷ 0 ∷ 0 ∷ 0 ∷ 3 ∷ []) ∷ got (1 ∷ 2 ∷ 3 ∷ []) ∷ []

arrives : Arrives [] answers (message ∷ [])
unfolding pack_be32
arrives =
    next_one message (piece 96 (0 ∷ 128 ∷ 2 ∷ 0 ∷ 0 ∷ 0 ∷ 3 ∷ []) done) (piece 1 (2 ∷ 3 ∷ []) done)
      none_left

rdi_thread_func_messages_example :
    (w : TcpSystem) × (rdi_thread_func 1 clocks open_client
        (record { dials = no_dial; answers = answers })
        node_init
        true
      ≡ (process_each process_rdi_datagram clocks node_init [] (message ∷ []) >>= λ (after, events).
          ok (stopped open_client w after events)))
rdi_thread_func_messages_example =
    rdi_thread_func_messages clocks open_client no_dial [] answers (message ∷ []) node_init refl
      arrives (omega arith)

threads_datagrams_example :
    (rdi_thread_func 2 clocks listening udp_system node_init false ≡ (
      process_answers process_rdi_datagram udp_buf_size clocks node_init [] udp_system.answers
      >>= λ x. ok (stopped listening (record udp_system { answers = [] }) x.0 x.1)))
    × (shi_thread_func 2 clocks listening udp_system node_init ≡ (
        process_answers process_shi_datagram small_buf_size clocks node_init [] udp_system.answers
        >>= λ x. ok (stopped listening (record udp_system { answers = [] }) x.0 x.1)))
    × (spi_thread_func 2 clocks listening udp_system node_init ≡ (
        process_answers process_spi_datagram small_buf_size clocks node_init [] udp_system.answers
        >>= λ x. ok (stopped listening (record udp_system { answers = [] }) x.0 x.1)))
unfolding is_open
threads_datagrams_example = threads_datagrams clocks listening udp_system node_init refl
