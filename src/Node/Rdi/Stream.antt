-- ===== src/Node/Rdi/Stream.antt =====
-- An RDI message that a sensor sends in one datagram reaches deliver_rdi_frame as it was sent.
use afi920_ros2_driver.Base.{
  le→ltb, length, All, ok, ℕ, ◌+◌, ◌%◌, ◌^◌, ◌≤◌, ◌<◌, ◌≡◌, ◌∙◌, some, List, map, arith,
}
use afi920_ros2_driver.Wire.{IsByte}
use afi920_ros2_driver.E2e.{e2e_data_id_rdi}
use afi920_ros2_driver.Someip.{SomeipHeader, event_rdi, someip_header_size}
use afi920_ros2_driver.E2e.Protect.{header_of}
use afi920_ros2_driver.Parsers.Rdi.RoundTrip as Payload
use afi920_ros2_driver.Parsers.RdiTypes.{RdiFrame, rdi_frame_init, rdi_max_detections}
use afi920_ros2_driver.Parsers.Iso.{InterfaceHeader}
use afi920_ros2_driver.Parsers.Iso.Header.{IsInterfaceHeader}
use afi920_ros2_driver.Parsers.Rdi.Layout.{WireDetection, IsWireDetection, from_wire}
use afi920_ros2_driver.Node.Gate.{is_zero}
use afi920_ros2_driver.Node.Types.{Node, Clock}
use afi920_ros2_driver.Node.Datagram.{
  IsEventOf, accepted-header, datagram, datagram-size, drop-datagram, deserialize-datagram,
}
use afi920_ros2_driver.Node.Gate.Strict.{consume-protect}
use afi920_ros2_driver.Node.Rdi.{
  deliver_rdi_frame, rdi_frame_received, rdi_payload_received, process_rdi_datagram,
  e2e_data_id_rdi, event_rdi, someip_header_size,
}

abbrev pub counted : Node → Node
counted n = record n { rdi_diag_count = (n.rdi_diag_count + 1) % 2 ^ 32 }

-- The datagram passes the checks of both headers.
process-datagram :
    (n : Node) (clock : Clock) (h : SomeipHeader) (counter : ℕ) (iso : List ℕ)
    → IsEventOf event_rdi h
    → counter < 2 ^ 32
    → length iso < 2 ^ 32
    → All IsByte iso
    → process_rdi_datagram n clock (datagram h counter e2e_data_id_rdi iso)
      ≡ rdi_frame_received (counted n) clock (some (iso, header_of counter e2e_data_id_rdi iso))
unfolding process_rdi_datagram rdi_payload_received
process-datagram n clock h counter iso v hc hl hb =
    let (valid, event, single) = accepted-header event_rdi h v in
    rw (
      le→ltb (length (datagram h counter e2e_data_id_rdi iso)) someip_header_size
          (datagram-size h counter e2e_data_id_rdi iso),
      drop-datagram h counter e2e_data_id_rdi iso,
      deserialize-datagram h counter e2e_data_id_rdi iso v.fields,
      valid,
      event,
      single,
      consume-protect n.validate_e2e n.e2e_strict counter e2e_data_id_rdi iso hc (omega arith) hl
          hb,
    )

module _ (header : InterfaceHeader) (velocity_begin velocity_end capability : ℕ)
    (ws : List WireDetection) (rest : List ℕ) where
  abbrev payload : List ℕ
  payload = Payload.serialize header velocity_begin velocity_end capability ws rest

  -- The frame that the sensor means, as the node stores it.
  abbrev pub sent_frame : Node → Clock → RdiFrame
  sent_frame n clock = record {
    message = record {
      header = header;
      ambiguity_domain = record {
        radial_velocity_begin = velocity_begin;
        radial_velocity_end = velocity_end;
        range_begin = 0;
        range_end = 0;
        azimuth_begin = 0;
        azimuth_end = 0;
        elevation_begin = 0;
        elevation_end = 0;
      };
      recognised_detections_capability = capability;
      recognised_detections_status = 0;
      num_detections = length ws;
    };
    recv_timestamp_ns = clock.received;
    frame_seq = n.rdi_frame_seq;
    detections_storage = map from_wire ws;
  }

  abbrev pub numbered : Node → Node
  numbered n = record (counted n) { rdi_frame_seq = (n.rdi_frame_seq + 1) % 2 ^ 32 }

  -- A sensor sends a message in one datagram: a SOME/IP header of an RDI event, an E2E header with
  -- the CRC of what follows, and the payload of a header and at most 4096 detections, all fields in
  -- range. Then, whatever the flags of the check and the state of the node, the frame with that header
  -- and exactly those detections is delivered, with the receive time and the next frame number.
  pub process_rdi_datagram_delivers :
      (n : Node) (clock : Clock) (h : SomeipHeader) (counter : ℕ)
      → IsEventOf event_rdi h
      → counter < 2 ^ 32
      → length payload < 2 ^ 32
      → All IsByte payload
      → IsInterfaceHeader header
      → velocity_begin < 2 ^ 32
      → velocity_end < 2 ^ 32
      → capability < 2 ^ 16
      → length ws ≤ rdi_max_detections
      → All IsWireDetection ws
      → process_rdi_datagram n clock (datagram h counter e2e_data_id_rdi payload)
        ≡ ok (deliver_rdi_frame (numbered n) (sent_frame n clock) clock.stamp)
  unfolding rdi_frame_received is_zero
  process_rdi_datagram_delivers n clock h counter v hc hl hp hh hb he hk hn hw =
      process-datagram n clock h counter payload v hc hl hp
      ∙ rw (
          Payload.parse-serialize header velocity_begin velocity_end capability ws rest
            (record rdi_frame_init {
              recv_timestamp_ns = clock.received;
              frame_seq = n.rdi_frame_seq;
            })
            hh hb he hk hn hw)
