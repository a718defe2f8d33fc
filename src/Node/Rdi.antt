-- ===== src/Node/Rdi.antt =====
-- The RDI stream in src/afi920_node.cpp, from the datagram to what is published.
pub mod Loss
pub mod Total
pub mod Stream
pub mod Segments
pub mod Message
pub mod Messages
pub mod Cloud
mod Runs
use afi920_ros2_driver.Base.{
  ltb, ◌!=◌, if◌then◌else◌, is_negative, length, drop, Access, ok, ◌>>=◌, ℕ, ◌+◌, ◌-◌, ◌%◌, ◌^◌,
  Bool, true, false, not, ◌&&◌, ◌||◌, Option, none, some, List, [], ◌∷◌, ◌++◌,
}
use afi920_ros2_driver.Someip.{
  someip_tp_header_size, someip_header_size, someip_tp_deserialize, someip_deserialize,
  someip_validate, event_rdi, someip_is_tp,
}
use afi920_ros2_driver.E2e.{E2eHeader, e2e_data_id_rdi}
use afi920_ros2_driver.Parsers.Rdi.{parse}
use afi920_ros2_driver.Parsers.RdiTypes.{RdiFrame, rdi_frame_init}
use afi920_ros2_driver.Someip.Tp.{feed, reset, get_payload, Reassembler}
use afi920_ros2_driver.Node.Types.{
  Node, Event, Clock, publish_pointcloud, publish_detection_array, publish_marker,
  someip_header_unset,
}
use afi920_ros2_driver.Node.Gate.{consume_e2e_header, is_zero}

-- An event names the builder's configuration and the frame, and `Node.Rdi.Messages` makes the calls of
-- the builder that it stands for.
unfoldable pub on_rdi_frame : Node → RdiFrame → ℕ → Node × List Event
on_rdi_frame n frame stamp =
    let counted = record n { rdi_frame_count = (n.rdi_frame_count + 1) % 2 ^ 64 } in
    let build_arr = n.publish_detections && n.pub_rdi in
    if not n.pub_pointcloud then (counted, []) else (
      counted,
      publish_pointcloud n.pc_builder frame stamp
          ∷ ((if build_arr
                then publish_detection_array n.pc_builder frame stamp frame.message.header.timestamp
                  ∷ []
                else [])
              ++ (if n.pub_marker
                  then publish_marker frame.message.num_detections stamp ∷ []
                  else [])),
    )

-- The part of `deliver_rdi_frame` that counts.
unfoldable pub count_packet : Node → ℕ → Node
count_packet n message_counter =
    let total = (n.total_packets + 1) % 2 ^ 32 in
    let expected = (n.last_rdi_counter + 1) % 2 ^ 32 in
    let gap = (message_counter + 2 ^ 32 - expected) % 2 ^ 32 in
    let lost =
      if not n.first_rdi && message_counter != expected
      then (n.lost_packets + gap) % 2 ^ 32
      else n.lost_packets in
    record n {
      total_packets = total;
      lost_packets = lost;
      first_rdi = false;
      last_rdi_counter = message_counter;
    }

unfoldable pub deliver_rdi_frame : Node → RdiFrame → ℕ → Node × List Event
deliver_rdi_frame n frame stamp =
    on_rdi_frame (count_packet n frame.message.header.message_counter) frame stamp

-- What `process_rdi_datagram` does with the payload of an accepted header: the frame gets its
-- receive time and number, and is delivered if it can be parsed.
unfoldable pub rdi_frame_received :
    Node → Clock → Option (List ℕ × E2eHeader) → Access (Node × List Event)
unfolding is_zero
rdi_frame_received n clock none = ok (n, [])
rdi_frame_received n clock (some (payload, e2e)) =
    let next = record n { rdi_frame_seq = (n.rdi_frame_seq + 1) % 2 ^ 32 } in
    let frame = record rdi_frame_init {
      recv_timestamp_ns = clock.received;
      frame_seq = n.rdi_frame_seq;
    } in
    do
      (rc, filled) ← parse (some payload) frame
      ok (if is_zero rc then deliver_rdi_frame next filled clock.stamp else (next, []))

unfoldable pub rdi_payload_received : Node → Clock → List ℕ → Access (Node × List Event)
rdi_payload_received n clock payload = do
  consumed ← consume_e2e_header n.validate_e2e n.e2e_strict payload e2e_data_id_rdi
  rdi_frame_received n clock consumed

-- The reassembler is reset after a complete message, whatever became of it.
unfoldable pub reset_after : Node × List Event → Access (Node × List Event)
reset_after (n, events) = ok (record n { rdi_tp = reset n.rdi_tp }, events)

unfoldable pub rdi_segment_fed : Node → Clock → Bool × Reassembler → Access (Node × List Event)
rdi_segment_fed n clock (false, rdi_tp) = ok (record n { rdi_tp = rdi_tp }, [])
rdi_segment_fed n clock (true, rdi_tp) =
    rdi_payload_received (record n { rdi_tp = rdi_tp }) clock (get_payload rdi_tp) >>= reset_after

-- The branch of a segment, `segment` being what follows the SOME/IP header.
unfoldable pub rdi_segment_received : Node → Clock → ℕ → List ℕ → Access (Node × List Event)
rdi_segment_received n clock session_id segment =
    if ltb (length segment) someip_tp_header_size then ok (n, []) else do
      tp ← someip_tp_deserialize segment
      fed ←
          feed n.rdi_tp (some (drop someip_tp_header_size segment)) tp.offset_bytes tp.more_segments
            session_id clock.checked clock.started
      rdi_segment_fed n clock fed

unfoldable pub process_rdi_datagram : Node → Clock → List ℕ → Access (Node × List Event)
process_rdi_datagram n clock datagram =
    let counted = record n { rdi_diag_count = (n.rdi_diag_count + 1) % 2 ^ 32 } in
    if ltb (length datagram) someip_header_size then ok (counted, []) else do
      (rc, hdr) ← someip_deserialize (some datagram) someip_header_unset
      if is_negative rc || not (someip_validate hdr) || hdr.method_id != event_rdi
          then ok (counted, [])
          else (if someip_is_tp hdr.message_type
              then rdi_segment_received counted clock hdr.session_id
                  (drop someip_header_size datagram)
              else rdi_payload_received counted clock (drop someip_header_size datagram))
