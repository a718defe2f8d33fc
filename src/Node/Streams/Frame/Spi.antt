-- ===== src/Node/Streams/Frame/Spi.antt =====
-- The handler of the SPI stream, on nodes with other members of the RDI and the SHII stream.
use afi920_ros2_driver.Base.{
  ltb, ◌!=◌, is_negative, length, drop, ok, ◌>>=◌, ℕ, ◌≡◌, refl, ap, not, ◌||◌, Option, none, some,
  List, bind_after,
}
use afi920_ros2_driver.E2e.{E2eHeader, e2e_data_id_spi}
use afi920_ros2_driver.Someip.{someip_header_size, someip_deserialize, someip_validate, event_spi}
use afi920_ros2_driver.Parsers.SpiTypes.{SpiMessage, spi_message_init}
use afi920_ros2_driver.Parsers.Spi.{parse}
use afi920_ros2_driver.Node.Types.{Node, Clock, someip_header_unset}
use afi920_ros2_driver.Node.Gate.{consume_e2e_header, is_zero}
use afi920_ros2_driver.Node.Spi.{
  on_spi_message, spi_payload_received, process_spi_datagram, sensor_performance, mounting_pose,
}
use afi920_ros2_driver.Node.Streams.{rdi_from, shi_from, spi_from}
use afi920_ros2_driver.Node.Streams.Frame.{Rebuild, rebuilt, rebuild, if_rebuilt, if_rebuild}

module _ (n y z : Node) where
  abbrev other : Node
  other = rdi_from y (shi_from z n)

  abbrev into : Rebuild
  into x = spi_from x other

  on_spi_message_frame :
      (x : Node) (msg : SpiMessage) (stamp : ℕ)
      → on_spi_message (spi_from x other) msg stamp
        ≡ rebuilt into (on_spi_message (spi_from x n) msg stamp)
  unfolding on_spi_message sensor_performance mounting_pose
  on_spi_message_frame x msg stamp = if_rebuilt into (not n.pub_spi) refl refl

  spi_payload_received_frame :
      (x : Node) (clock : Clock) (consumed : Option (List ℕ × E2eHeader))
      → spi_payload_received (spi_from x other) clock consumed
        ≡ (spi_payload_received (spi_from x n) clock consumed >>= rebuild into)
  unfolding spi_payload_received is_zero
  spi_payload_received_frame x clock none = refl
  spi_payload_received_frame x clock (some (payload, e2e)) =
      bind_after (parse (some payload) spi_message_init) _ _ _ (λ (rc, msg).
        ap ok (if_rebuilt into (is_zero rc) (on_spi_message_frame x msg clock.stamp) refl))

  -- The handler does to the SPI members what it does on `n`, and leaves the others as they are.
  pub process_spi_datagram_frame :
      (x : Node) (clock : Clock) (datagram : List ℕ)
      → process_spi_datagram (spi_from x other) clock datagram
        ≡ (process_spi_datagram (spi_from x n) clock datagram >>= rebuild into)
  unfolding process_spi_datagram
  process_spi_datagram_frame x clock datagram =
      if_rebuild into (ltb (length datagram) someip_header_size) _ _ refl (
        bind_after (someip_deserialize (some datagram) someip_header_unset) _ _ _ (λ (rc, hdr).
          if_rebuild into
            (is_negative rc || not (someip_validate hdr) || hdr.method_id != event_spi) _ _ refl
            (bind_after
              (consume_e2e_header n.validate_e2e n.e2e_strict (drop someip_header_size datagram)
                e2e_data_id_spi)
              _ _ _ (spi_payload_received_frame x clock))))
