-- ===== src/Node/Streams.antt =====
-- The three streams of src/afi920_node.cpp side by side: the threads share one node, and their
-- datagrams come in any order.
pub mod Frame
pub mod Interleaved
mod Runs
use afi920_ros2_driver.Base.{Access, ok, ◌>>=◌, ℕ, List, [], ◌∷◌, ◌++◌}
use afi920_ros2_driver.Node.Types.{Node, Event, Clock}
use afi920_ros2_driver.Node.Rdi.{process_rdi_datagram}
use afi920_ros2_driver.Node.Shi.{process_shi_datagram}
use afi920_ros2_driver.Node.Spi.{process_spi_datagram}
use afi920_ros2_driver.Node.Threads.{Process}

-- The members of a node that only one of the threads uses, taken over from another node.
abbrev pub rdi_from : Node → Node → Node
rdi_from x n = record n {
  rdi_tp = x.rdi_tp;
  rdi_frame_count = x.rdi_frame_count;
  rdi_frame_seq = x.rdi_frame_seq;
  total_packets = x.total_packets;
  lost_packets = x.lost_packets;
  last_rdi_counter = x.last_rdi_counter;
  first_rdi = x.first_rdi;
  rdi_diag_count = x.rdi_diag_count;
}

abbrev pub shi_from : Node → Node → Node
shi_from x n = record n { last_shi_counter = x.last_shi_counter; first_shi = x.first_shi }

abbrev pub spi_from : Node → Node → Node
spi_from x n = record n { last_spi_counter = x.last_spi_counter; first_spi = x.first_spi }

-- A datagram of one of the streams, with the clocks that its handling reads.
pub data Arrival : Type 0 where
  rdi : Clock × List ℕ → Arrival
  shi : Clock × List ℕ → Arrival
  spi : Clock × List ℕ → Arrival

-- What is published, by the thread that publishes it.
pub record Published : Type 0 where
  pub by_rdi : List Event
  pub by_shi : List Event
  pub by_spi : List Event

-- One thread handles its datagram on the shared node.
unfoldable pub process_arrival : Node → Published → Arrival → Access (Node × Published)
process_arrival n out (rdi (clock, datagram)) = process_rdi_datagram n clock datagram >>= λ r.
    ok (r.0, record out { by_rdi = out.by_rdi ++ r.1 })
process_arrival n out (shi (clock, datagram)) = process_shi_datagram n clock datagram >>= λ r.
    ok (r.0, record out { by_shi = out.by_shi ++ r.1 })
process_arrival n out (spi (clock, datagram)) = process_spi_datagram n clock datagram >>= λ r.
    ok (r.0, record out { by_spi = out.by_spi ++ r.1 })

unfoldable pub process_arrivals : Node → Published → List Arrival → Access (Node × Published)
process_arrivals n out [] = ok (n, out)
process_arrivals n out (a ∷ arrivals) =
    process_arrival n out a >>= λ r. process_arrivals r.0 r.1 arrivals

-- One thread with a node of its own.
unfoldable pub process_all :
    Process → Node → List Event → List (Clock × List ℕ) → Access (Node × List Event)
process_all process n events [] = ok (n, events)
process_all process n events ((clock, datagram) ∷ rest) =
    process n clock datagram >>= λ r. process_all process r.0 (events ++ r.1) rest
