-- ===== src/Node/Streams/Runs.antt =====
-- The theorem on the three streams at concrete datagrams.
use afi920_ros2_driver.Base.{replicate, ok, ◌>>=◌, ℕ, ◌≡◌, List, [], ◌∷◌}
use afi920_ros2_driver.E2e.{e2e_data_id_rdi, e2e_data_id_shii, e2e_data_id_spi}
use afi920_ros2_driver.Someip.{event_shii, event_spi}
use afi920_ros2_driver.Node.Types.{Clock, node_init}
use afi920_ros2_driver.Node.Datagram.{datagram}
use afi920_ros2_driver.Node.Rdi.{process_rdi_datagram}
use afi920_ros2_driver.Node.Shi.{process_shi_datagram}
use afi920_ros2_driver.Node.Spi.{process_spi_datagram}
use afi920_ros2_driver.Node.Streams.{Arrival, rdi, shi, spi, process_arrivals, process_all}
use afi920_ros2_driver.Node.Streams.Interleaved.{
  none_comes, rdi_comes, shi_comes, spi_comes, joined, process_arrivals-Interleaving,
}
use afi920_ros2_driver.Node.Samples.{clock, event_header}

abbrev detections : Clock × List ℕ
detections = (clock, datagram event_header 7 e2e_data_id_rdi (replicate 36 0))

abbrev health : Clock × List ℕ
health = (
  clock,
  datagram (record event_header { method_id = event_shii }) 8 e2e_data_id_shii (replicate 40 0),
)

abbrev performance : Clock × List ℕ
performance = (
  clock,
  datagram (record event_header { method_id = event_spi }) 9 e2e_data_id_spi (replicate 60 0),
)

abbrev arrivals : List Arrival
arrivals = shi health ∷ rdi detections ∷ spi performance ∷ rdi detections ∷ []

process_arrivals-Interleaving_example :
    process_arrivals node_init (record { by_rdi = []; by_shi = []; by_spi = [] }) arrivals ≡ (
      process_all process_rdi_datagram node_init [] (detections ∷ detections ∷ []) >>= λ a.
      process_all process_shi_datagram node_init [] (health ∷ []) >>= λ b.
      process_all process_spi_datagram node_init [] (performance ∷ []) >>= λ c.
      ok (joined a.0 b.0 c.0 node_init, record { by_rdi = a.1; by_shi = b.1; by_spi = c.1 }))
process_arrivals-Interleaving_example =
    process_arrivals-Interleaving node_init
      (shi_comes (rdi_comes (spi_comes (rdi_comes none_comes))))
