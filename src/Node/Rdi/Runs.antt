-- ===== src/Node/Rdi/Runs.antt =====
-- The theorems on the RDI stream at concrete frames and datagrams.
use afi920_ros2_driver.Base.{
  length, ok, ◌>>=◌, ℕ, ◌+◌, ◌%◌, ◌^◌, ◌<◌, ◌≡◌, refl, inl, inr, true, false, some, List, [], ◌∷◌,
  arith,
}
use afi920_ros2_driver.Node.Rdi.Cloud.{
  IsCloudMessage, IsArrayMessage, messages_with, process_rdi_datagram_cloud,
}
use afi920_ros2_driver.Builder.Samples.{plain_maths, wide_config}
use afi920_ros2_driver.Builder.Cloud.{table_cloud, Table, Table-IsPointCloud2}
use afi920_ros2_driver.Builder.{PointCloud2Message}
use native.Mathlib.Decide.{dec_lt}
use afi920_ros2_driver.Node.Rdi.Messages.{messages}
use afi920_ros2_driver.Builder.Array.{DetectionArray}
use afi920_ros2_driver.Node.Datagram.{datagram}
use afi920_ros2_driver.Parsers.Rdi.Layout.{serialize_detections, serialize_detection}
use afi920_ros2_driver.Parsers.Iso.Header.{serialize_interface_header}
use afi920_ros2_driver.Someip.{SomeipHeader}
use afi920_ros2_driver.Wire.{pack_le16, pack_le32, pack_le64}
use afi920_ros2_driver.E2e.{e2e_data_id_rdi}
use afi920_ros2_driver.Parsers.Iso.{zero_interface_header}
use afi920_ros2_driver.Parsers.RdiTypes.{RdiFrame, rdi_frame_init}
use afi920_ros2_driver.Parsers.Rdi.RoundTrip as Payload
use afi920_ros2_driver.Node.Types.{Node, node_init}
use afi920_ros2_driver.Node.Rdi.{deliver_rdi_frame, process_rdi_datagram}
use afi920_ros2_driver.Node.Rdi.Loss.{
  deliver_all, deliver_all_lost, deliver_rdi_frame_repeated, IsExact,
}
use afi920_ros2_driver.Node.Rdi.Stream.{numbered, sent_frame, process_rdi_datagram_delivers}
use afi920_ros2_driver.Node.Rdi.{rdi_payload_received, reset_after}
use afi920_ros2_driver.Node.Rdi.Stream.{counted}
use afi920_ros2_driver.Node.Rdi.Segments.{IsSegmentHeader}
use afi920_ros2_driver.Node.Rdi.Message.{Sent, seen, process_message, process_message-payload}
use afi920_ros2_driver.Someip.Tp.{Reassembler}
use afi920_ros2_driver.Node.Samples.{whole, clock, event_header, echo}

-- A frame without detections.
abbrev frame_with : ℕ → RdiFrame
frame_with counter = record rdi_frame_init {
  message = record rdi_frame_init.message {
    header = record zero_interface_header { message_counter = counter };
  };
}

deliver_all_lost_example :
    IsExact 5 3 (deliver_all node_init 0 (frame_with 5 ∷ frame_with 6 ∷ frame_with 10 ∷ []))
deliver_all_lost_example =
    deliver_all_lost 0 node_init (frame_with 5) (frame_with 6 ∷ frame_with 10 ∷ [])
      (record { first = refl; none_received = refl; none_lost = refl }) (omega arith) (omega arith)

abbrev running : Node
running = record node_init { first_rdi = false; last_rdi_counter = 9 }

deliver_rdi_frame_repeated_example :
    (deliver_rdi_frame running (frame_with 9) 0).0.lost_packets ≡ (0 + 4294967295) % 2 ^ 32
deliver_rdi_frame_repeated_example =
    deliver_rdi_frame_repeated 0 running (frame_with 9) refl refl (omega arith)

process_rdi_datagram_delivers_example :
    process_rdi_datagram node_init clock (
      datagram event_header 7 e2e_data_id_rdi
        (Payload.serialize zero_interface_header 1 2 4096 (echo ∷ []) []))
    ≡ ok (
        deliver_rdi_frame
          (numbered zero_interface_header 1 2 4096 (echo ∷ []) [] node_init)
          (sent_frame zero_interface_header 1 2 4096 (echo ∷ []) [] node_init clock)
          13)
unfolding Payload.serialize serialize_interface_header pack_le16 pack_le32 pack_le64
    serialize_detections serialize_detection
process_rdi_datagram_delivers_example =
    process_rdi_datagram_delivers zero_interface_header 1 2 4096 (echo ∷ []) [] node_init clock
      event_header 7
      (record { fields = omega arith; service = refl; event = refl; notification = refl })
      (omega arith) (omega arith) (omega arith) (omega arith) (omega arith) (omega arith)
      (omega arith) (omega arith) (omega arith)

-- A message of 22 bytes in two segments.
abbrev long_message : List ℕ
long_message = whole

abbrev first_segment : Sent
first_segment = record { units = 0; size = 16; clock = clock }

abbrev last_segment : Sent
last_segment = record { units = 1; size = 6; clock = clock }

abbrev segment_header : SomeipHeader
segment_header = record event_header { message_type = 0x22 }

segment_ok : IsSegmentHeader segment_header
segment_ok = record { fields = omega arith; service = refl; event = refl; segmented = refl }

short_message : length long_message < 2 ^ 64
short_message = omega arith

process_message-payload_example :
    (r : Reassembler) × (process_message segment_header segment_ok long_message short_message
        node_init
        (first_segment ∷ [])
        last_segment
      ≡ (rdi_payload_received
            (record (counted (seen 1 node_init)) { rdi_tp = r })
            clock
            long_message
          >>= reset_after))
process_message-payload_example =
    process_message-payload segment_header segment_ok long_message short_message node_init
      first_segment [] last_segment refl (omega arith) (omega arith) (omega arith) (omega arith)
      (λ i h. elim (dec_lt i 16) [
        | yes l ↦ inr (inl (omega arith, l))
        | no l ↦ inl (omega arith, omega arith)
      ])

-- A node whose builder is configured.
abbrev building : Node
building = record node_init { pc_builder = some wide_config }

process_rdi_datagram_cloud_example :
    (cloud : PointCloud2Message Table) × (arr : DetectionArray) × ((process_rdi_datagram building
          clock
          (datagram event_header 7 e2e_data_id_rdi
            (Payload.serialize zero_interface_header 1 2 4096 (echo ∷ []) []))
        >>= λ (after, events). messages plain_maths events)
      ≡ ok (messages_with true true cloud arr 1 13))
    × IsCloudMessage plain_maths wide_config zero_interface_header (echo ∷ []) 13 cloud
    × IsArrayMessage plain_maths wide_config zero_interface_header (echo ∷ []) 13 arr
unfolding Payload.serialize serialize_interface_header pack_le16 pack_le32 pack_le64
    serialize_detections serialize_detection
process_rdi_datagram_cloud_example =
    process_rdi_datagram_cloud ⦃laws = Table-IsPointCloud2⦄ plain_maths wide_config
      zero_interface_header 1 2 4096 (echo ∷ []) [] building clock event_header 7 refl refl
      (record { fields = omega arith; service = refl; event = refl; notification = refl })
      (omega arith) (omega arith) (omega arith) (omega arith) (omega arith) (omega arith)
      (omega arith) (omega arith) (omega arith)
