-- ===== src/Node/Streams/Frame/Shi.antt =====
-- The handler of the SHII stream, on nodes with other members of the RDI and the SPI stream.
use afi920_ros2_driver.Base.{
  ltb, ◌!=◌, is_negative, length, drop, ok, ◌>>=◌, ℕ, ◌≡◌, refl, ap, not, ◌||◌, Option, none, some,
  List, bind_after,
}
use afi920_ros2_driver.E2e.{E2eHeader, e2e_data_id_shii}
use afi920_ros2_driver.Someip.{someip_header_size, someip_deserialize, someip_validate, event_shii}
use afi920_ros2_driver.Parsers.ShiTypes.{ShiMessage, shi_message_init}
use afi920_ros2_driver.Parsers.Shi.{parse}
use afi920_ros2_driver.Node.Types.{Node, Clock, someip_header_unset}
use afi920_ros2_driver.Node.Gate.{consume_e2e_header, is_zero}
use afi920_ros2_driver.Node.Shi.{
  on_shi_message, shi_payload_received, process_shi_datagram, health_info,
}
use afi920_ros2_driver.Node.Streams.{rdi_from, shi_from, spi_from}
use afi920_ros2_driver.Node.Streams.Frame.{Rebuild, rebuilt, rebuild, if_rebuilt, if_rebuild}

module _ (n y z : Node) where
  abbrev other : Node
  other = rdi_from y (spi_from z n)

  abbrev into : Rebuild
  into x = shi_from x other

  on_shi_message_frame :
      (x : Node) (msg : ShiMessage) (stamp : ℕ)
      → on_shi_message (shi_from x other) msg stamp
        ≡ rebuilt into (on_shi_message (shi_from x n) msg stamp)
  unfolding on_shi_message health_info
  on_shi_message_frame x msg stamp = if_rebuilt into (not n.pub_shi) refl refl

  shi_payload_received_frame :
      (x : Node) (clock : Clock) (consumed : Option (List ℕ × E2eHeader))
      → shi_payload_received (shi_from x other) clock consumed
        ≡ (shi_payload_received (shi_from x n) clock consumed >>= rebuild into)
  unfolding shi_payload_received is_zero
  shi_payload_received_frame x clock none = refl
  shi_payload_received_frame x clock (some (payload, e2e)) =
      bind_after (parse (some payload) shi_message_init) _ _ _ (λ (rc, msg).
        ap ok (if_rebuilt into (is_zero rc) (on_shi_message_frame x msg clock.stamp) refl))

  -- The handler does to the SHII members what it does on `n`, and leaves the others as they are.
  pub process_shi_datagram_frame :
      (x : Node) (clock : Clock) (datagram : List ℕ)
      → process_shi_datagram (shi_from x other) clock datagram
        ≡ (process_shi_datagram (shi_from x n) clock datagram >>= rebuild into)
  unfolding process_shi_datagram
  process_shi_datagram_frame x clock datagram =
      if_rebuild into (ltb (length datagram) someip_header_size) _ _ refl (
        bind_after (someip_deserialize (some datagram) someip_header_unset) _ _ _ (λ (rc, hdr).
          if_rebuild into
            (is_negative rc || not (someip_validate hdr) || hdr.method_id != event_shii) _ _ refl
            (bind_after
              (consume_e2e_header n.validate_e2e n.e2e_strict (drop someip_header_size datagram)
                e2e_data_id_shii)
              _ _ _ (shi_payload_received_frame x clock))))
