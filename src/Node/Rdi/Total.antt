-- ===== src/Node/Rdi/Total.antt =====
-- No RDI datagram makes the driver read or write past the end of what it holds.
use afi920_ros2_driver.Base.{
  if◌then◌else◌, lt→ltb, le→ltb, Bool-cases, length, drop, All, length-drop, ok, Safe, Safe-bind, ℕ,
  ◌+◌, ◌%◌, ◌^◌, ◌<◌, ◌≡◌, inl, inr, Bool, true, false, ◌&&◌, Option, none, some, List, [], ◌∷◌,
  ◌++◌, arith,
}
use afi920_ros2_driver.Someip.{someip_tp_header_size, someip_header_size}
use native.Mathlib.Decide.{dec_le}
use afi920_ros2_driver.E2e.{E2eHeader, e2e_data_id_rdi, e2e_header_size}
use afi920_ros2_driver.Parsers.RdiTypes.{RdiFrame, rdi_frame_init, rdi_header_size}
use afi920_ros2_driver.Parsers.Rdi.Total.{
  frame_at, parse-frame_at, length-detections_at, count, parse_short,
}
use afi920_ros2_driver.Someip.Tp.{get_payload, Reassembler}
use afi920_ros2_driver.Someip.Header.{
  header_at, tp_header_at, someip_deserialize-ok, someip_tp_deserialize-ok,
}
use afi920_ros2_driver.Someip.Tp.Bounded.{
  IsReassembler, feed-IsReassembler, reset-IsReassembler, FedWell,
}
use afi920_ros2_driver.E2e.Header as E2eHeader
use afi920_ros2_driver.Node.Types.{
  Node, Event, Clock, publish_pointcloud, publish_detection_array, publish_marker, publish_health,
  publish_performance, send_transform, someip_header_unset,
}
use afi920_ros2_driver.Node.Gate.Strict.{consume-cases}
use afi920_ros2_driver.Node.Rdi.{
  on_rdi_frame, count_packet, deliver_rdi_frame, rdi_frame_received, rdi_payload_received,
  rdi_segment_received, process_rdi_datagram, E2eHeader, someip_tp_header_size, reset_after,
  rdi_segment_fed, someip_header_size, Reassembler, someip_header_unset,
}

-- A frame holds as many detections as it announces.
abbrev pub IsFrame : RdiFrame → Type 0
IsFrame f = length f.detections_storage ≡ f.message.num_detections

abbrev pub IsEvent : Event → Type 0
IsEvent (publish_pointcloud b f stamp) = IsFrame f
IsEvent (publish_detection_array b f stamp ns) = IsFrame f
IsEvent (publish_marker n stamp) = Unit
IsEvent (publish_health hi) = Unit
IsEvent (publish_performance sp) = Unit
IsEvent (send_transform tf) = Unit

abbrev pub Sound : Node × List Event → Type 0
Sound r = IsReassembler r.0.rdi_tp × All IsEvent r.1

on_rdi_frame-Sound :
    (n : Node) (f : RdiFrame) (stamp : ℕ)
    → IsReassembler n.rdi_tp
    → IsFrame f
    → Sound (on_rdi_frame n f stamp)
unfolding on_rdi_frame
on_rdi_frame-Sound n f stamp h v = elim (Bool-cases n.pub_pointcloud) [
  | inl e ↦ rw e (h, (v, events (n.publish_detections && n.pub_rdi) n.pub_marker))
  | inr e ↦ rw e (h, tt)
]
  where
    events :
        (a b : Bool)
        → All IsEvent (
            (if a
              then publish_detection_array n.pc_builder f stamp f.message.header.timestamp ∷ []
              else [])
            ++ (if b then publish_marker f.message.num_detections stamp ∷ [] else []))
    events true true = (v, (tt, tt))
    events true false = (v, tt)
    events false true = (tt, tt)
    events false false = tt

deliver_rdi_frame-Sound :
    (n : Node) (f : RdiFrame) (stamp : ℕ)
    → IsReassembler n.rdi_tp
    → IsFrame f
    → Sound (deliver_rdi_frame n f stamp)
unfolding deliver_rdi_frame count_packet
deliver_rdi_frame-Sound n f stamp h v =
    on_rdi_frame-Sound (count_packet n f.message.header.message_counter) f stamp h v

rdi_frame_received-Sound :
    (n : Node) (clock : Clock) (consumed : Option (List ℕ × E2eHeader))
    → IsReassembler n.rdi_tp
    → Safe Sound (rdi_frame_received n clock consumed)
unfolding rdi_frame_received
rdi_frame_received-Sound n clock none h = (h, tt)
rdi_frame_received-Sound n clock (some (p, e2e)) h = elim (dec_le rdi_header_size (length p)) [
  | yes l ↦ rw (parse-frame_at p frame l) (
      deliver_rdi_frame-Sound next (frame_at p frame) clock.stamp h
        (length-detections_at p 0 (count p frame)))
  | no l ↦ rw (parse_short p frame (omega arith)) (h, tt)
]
  where
    frame : RdiFrame
    frame = record rdi_frame_init {
      recv_timestamp_ns = clock.received;
      frame_seq = n.rdi_frame_seq;
    }

    next : Node
    next = record n { rdi_frame_seq = (n.rdi_frame_seq + 1) % 2 ^ 32 }

rdi_payload_received-Sound :
    (n : Node) (clock : Clock) (p : List ℕ)
    → IsReassembler n.rdi_tp
    → Safe Sound (rdi_payload_received n clock p)
unfolding rdi_payload_received
rdi_payload_received-Sound n clock p h =
    elim (consume-cases p e2e_data_id_rdi n.validate_e2e n.e2e_strict) [
      | inl e ↦ rw e (rdi_frame_received-Sound n clock none h)
      | inr (_, e) ↦ rw e (
          rdi_frame_received-Sound n clock (some (drop e2e_header_size p, E2eHeader.header_at p)) h)
    ]

reset_after-Sound : (r : Node × List Event) → Sound r → Safe Sound (reset_after r)
unfolding reset_after
reset_after-Sound (n, events) s = (reset-IsReassembler n.rdi_tp, s.1)

rdi_segment_fed-Sound :
    (n : Node) (clock : Clock) (fed : Bool × Reassembler)
    → FedWell fed
    → Safe Sound (rdi_segment_fed n clock fed)
unfolding rdi_segment_fed
rdi_segment_fed-Sound n clock (false, rdi_tp) h = (h, tt)
rdi_segment_fed-Sound n clock (true, rdi_tp) h =
    Safe-bind Sound Sound _ reset_after
      (rdi_payload_received-Sound (record n { rdi_tp = rdi_tp }) clock (get_payload rdi_tp) h)
      reset_after-Sound

rdi_segment_received-Sound :
    (n : Node) (clock : Clock) (session_id : ℕ) (p : List ℕ)
    → length p < 2 ^ 63
    → IsReassembler n.rdi_tp
    → Safe Sound (rdi_segment_received n clock session_id p)
unfolding rdi_segment_received
rdi_segment_received-Sound n clock session_id p small h =
    elim (dec_le someip_tp_header_size (length p)) [
      | yes l ↦
          let tp = tp_header_at p in
          rw (le→ltb (length p) someip_tp_header_size l, someip_tp_deserialize-ok p l)
            (Safe-bind FedWell Sound _ (rdi_segment_fed n clock)
              (feed-IsReassembler n.rdi_tp (drop 4 p) tp.offset_bytes tp.more_segments session_id
                clock.checked clock.started (omega (arith, length-drop {0} 4 p)) h)
              (rdi_segment_fed-Sound n clock))
      | no l ↦ rw (lt→ltb (length p) someip_tp_header_size (omega arith)) (h, tt)
    ]

-- Whatever datagram of less than 2^63 bytes comes, in whatever state the node is, no byte past the
-- datagram or past the reassembled payload is read; the payload of the reassembler stays within its
-- buffer; and every published frame holds as many detections as it announces.
pub process_rdi_datagram-Sound :
    (n : Node) (clock : Clock) (datagram : List ℕ)
    → length datagram < 2 ^ 63
    → IsReassembler n.rdi_tp
    → Safe Sound (process_rdi_datagram n clock datagram)
unfolding process_rdi_datagram
process_rdi_datagram-Sound n clock datagram small h =
    elim (dec_le someip_header_size (length datagram)) [
      | yes l ↦
          rw
            (
              le→ltb (length datagram) someip_header_size l,
              someip_deserialize-ok datagram someip_header_unset l,
            )
            (accepted _ _)
      | no l ↦ rw (lt→ltb (length datagram) someip_header_size (omega arith)) (h, tt)
    ]
  where
    counted : Node
    counted = record n { rdi_diag_count = (n.rdi_diag_count + 1) % 2 ^ 32 }

    rest : List ℕ
    rest = drop someip_header_size datagram

    accepted :
        (refused tp : Bool)
        → Safe Sound (
            if refused
            then ok (counted, [])
            else (if tp
                then rdi_segment_received counted clock (header_at datagram).session_id rest
                else rdi_payload_received counted clock rest))
    accepted true tp = (h, tt)
    accepted false true =
        rdi_segment_received-Sound counted clock (header_at datagram).session_id rest
          (omega (arith, length-drop {0} 16 datagram)) h
    accepted false false = rdi_payload_received-Sound counted clock rest h
