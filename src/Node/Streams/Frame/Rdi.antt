-- ===== src/Node/Streams/Frame/Rdi.antt =====
-- The handler of the RDI stream, on nodes with other members of the SHII and the SPI stream.
use afi920_ros2_driver.Base.{
  ltb, ◌!=◌, is_negative, length, drop, ok, ◌>>=◌, ℕ, ◌+◌, ◌%◌, ◌^◌, ◌≡◌, refl, ap, Bool, true,
  false, not, ◌||◌, Option, none, some, List, bind_after,
}
use afi920_ros2_driver.E2e.{E2eHeader, e2e_data_id_rdi}
use afi920_ros2_driver.Someip.{
  someip_header_size, someip_tp_header_size, someip_tp_deserialize, someip_deserialize,
  someip_validate, someip_is_tp, event_rdi,
}
use afi920_ros2_driver.Someip.Tp.{Reassembler, feed, get_payload}
use afi920_ros2_driver.Parsers.RdiTypes.{RdiFrame}
use afi920_ros2_driver.Parsers.Rdi.{parse}
use afi920_ros2_driver.Node.Types.{Node, Clock, someip_header_unset}
use afi920_ros2_driver.Node.Gate.{consume_e2e_header, is_zero}
use afi920_ros2_driver.Node.Rdi.{
  on_rdi_frame, count_packet, deliver_rdi_frame, rdi_frame_received, rdi_payload_received,
  reset_after, rdi_segment_fed, rdi_segment_received, process_rdi_datagram,
}
use afi920_ros2_driver.Node.Streams.{rdi_from, shi_from, spi_from}
use afi920_ros2_driver.Node.Streams.Frame.{
  Rebuild, rebuilt, rebuild, if_rebuilt, if_rebuild, then_rebuild,
}

module _ (n y z : Node) where
  abbrev other : Node
  other = shi_from y (spi_from z n)

  abbrev into : Rebuild
  into x = rdi_from x other

  on_rdi_frame_frame :
      (x : Node) (frame : RdiFrame) (stamp : ℕ)
      → on_rdi_frame (rdi_from x other) frame stamp
        ≡ rebuilt into (on_rdi_frame (rdi_from x n) frame stamp)
  unfolding on_rdi_frame
  on_rdi_frame_frame x frame stamp = if_rebuilt into (not n.pub_pointcloud) refl refl

  deliver_rdi_frame_frame :
      (x : Node) (frame : RdiFrame) (stamp : ℕ)
      → deliver_rdi_frame (rdi_from x other) frame stamp
        ≡ rebuilt into (deliver_rdi_frame (rdi_from x n) frame stamp)
  unfolding deliver_rdi_frame count_packet
  deliver_rdi_frame_frame x frame stamp =
      on_rdi_frame_frame (count_packet (rdi_from x n) frame.message.header.message_counter) frame
        stamp

  rdi_frame_received_frame :
      (x : Node) (clock : Clock) (consumed : Option (List ℕ × E2eHeader))
      → rdi_frame_received (rdi_from x other) clock consumed
        ≡ (rdi_frame_received (rdi_from x n) clock consumed >>= rebuild into)
  unfolding rdi_frame_received is_zero
  rdi_frame_received_frame x clock none = refl
  rdi_frame_received_frame x clock (some (payload, e2e)) =
      bind_after (parse (some payload) _) _ _ _ (λ (rc, filled). ap ok (
        if_rebuilt into (is_zero rc)
          (deliver_rdi_frame_frame (record x { rdi_frame_seq = (x.rdi_frame_seq + 1) % 2 ^ 32 })
            filled clock.stamp)
          refl))

  rdi_payload_received_frame :
      (x : Node) (clock : Clock) (payload : List ℕ)
      → rdi_payload_received (rdi_from x other) clock payload
        ≡ (rdi_payload_received (rdi_from x n) clock payload >>= rebuild into)
  unfolding rdi_payload_received
  rdi_payload_received_frame x clock payload =
      bind_after (consume_e2e_header n.validate_e2e n.e2e_strict payload e2e_data_id_rdi) _ _ _
        (rdi_frame_received_frame x clock)

  rdi_segment_fed_frame :
      (x : Node) (clock : Clock) (fed : Bool × Reassembler)
      → rdi_segment_fed (rdi_from x other) clock fed
        ≡ (rdi_segment_fed (rdi_from x n) clock fed >>= rebuild into)
  unfolding rdi_segment_fed reset_after
  rdi_segment_fed_frame x clock (false, tp) = refl
  rdi_segment_fed_frame x clock (true, tp) =
      then_rebuild into
        (rdi_payload_received (rdi_from (record x { rdi_tp = tp }) n) clock (get_payload tp))
        reset_after (rdi_payload_received_frame (record x { rdi_tp = tp }) clock (get_payload tp))
        (λ (m, events). refl)

  rdi_segment_received_frame :
      (x : Node) (clock : Clock) (session_id : ℕ) (segment : List ℕ)
      → rdi_segment_received (rdi_from x other) clock session_id segment
        ≡ (rdi_segment_received (rdi_from x n) clock session_id segment >>= rebuild into)
  unfolding rdi_segment_received
  rdi_segment_received_frame x clock session_id segment =
      if_rebuild into (ltb (length segment) someip_tp_header_size) _ _ refl (
        bind_after (someip_tp_deserialize segment) _ _ _ (λ tp.
          bind_after
            (feed x.rdi_tp (some (drop someip_tp_header_size segment)) tp.offset_bytes
              tp.more_segments session_id clock.checked clock.started)
            _ _ _ (rdi_segment_fed_frame x clock)))

  abbrev counted : Node → Node
  counted x = record x { rdi_diag_count = (x.rdi_diag_count + 1) % 2 ^ 32 }

  -- The handler does to the RDI members what it does on `n`, and leaves the others as they are.
  pub process_rdi_datagram_frame :
      (x : Node) (clock : Clock) (datagram : List ℕ)
      → process_rdi_datagram (rdi_from x other) clock datagram
        ≡ (process_rdi_datagram (rdi_from x n) clock datagram >>= rebuild into)
  unfolding process_rdi_datagram
  process_rdi_datagram_frame x clock datagram =
      if_rebuild into (ltb (length datagram) someip_header_size) _ _ refl (
        bind_after (someip_deserialize (some datagram) someip_header_unset) _ _ _ (λ (rc, hdr).
          if_rebuild into
            (is_negative rc || not (someip_validate hdr) || hdr.method_id != event_rdi) _ _ refl
            (if_rebuild into (someip_is_tp hdr.message_type) _ _
              (rdi_segment_received_frame (counted x) clock hdr.session_id
                (drop someip_header_size datagram))
              (rdi_payload_received_frame (counted x) clock (drop someip_header_size datagram)))))
