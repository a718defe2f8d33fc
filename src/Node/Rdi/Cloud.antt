-- ===== src/Node/Rdi/Cloud.antt =====
-- From the datagram of a sensor to the messages that are published.
use afi920_ros2_driver.Base.{
  if◌then◌else◌, length, filter, All, length-map, take_all, Access, ok, ◌>>=◌, ℕ, ◌^◌, ◌≤◌, ◌<◌,
  ◌≡◌, refl, sym, ap, subst, ◌∙◌, Bool, true, false, not, ◌&&◌, Option, some, List, [], ◌∷◌, ◌++◌,
  map,
}
use afi920_ros2_driver.Builder.Built.{build-IsCloudOf}
use afi920_ros2_driver.Builder.Fill.{Holds}
use afi920_ros2_driver.Builder.Range.{is_within, passes_filter_within, filter_same}
use afi920_ros2_driver.Builder.Array.{DetectionArray, detection_of, build_detection_array}
use afi920_ros2_driver.Builder.Array.Agrees.{build_detection_array-published}
use afi920_ros2_driver.E2e.{e2e_data_id_rdi}
use afi920_ros2_driver.Parsers.Iso.Header.{IsInterfaceHeader}
use afi920_ros2_driver.Wire.{IsByte}
use afi920_ros2_driver.Node.Datagram.{IsEventOf, datagram}
use afi920_ros2_driver.Someip.{SomeipHeader, event_rdi}
use afi920_ros2_driver.Node.Rdi.Stream.{numbered, sent_frame, process_rdi_datagram_delivers}
use afi920_ros2_driver.Builder.Points.{published}
use afi920_ros2_driver.Builder.{passes_filter, PointCloud2Message, build}
use afi920_ros2_driver.Parsers.Rdi.Layout.{WireDetection, from_wire, IsWireDetection}
use afi920_ros2_driver.Parsers.Iso.{InterfaceHeader}
use afi920_ros2_driver.Parsers.RdiTypes.{RdiFrame, RdiDetection, rdi_max_detections}
use afi920_ros2_driver.Node.Types.{
  Node, PointCloudConfig, Event, publish_pointcloud, publish_detection_array, publish_marker, Clock,
}
use afi920_ros2_driver.Node.Rdi.Messages.{
  RosMessage, cloud_message, array_message, other_message, ros_message, messages,
}
use afi920_ros2_driver.Builder.Floats.{Maths}
use afi920_ros2_driver.Builder.Cloud.{PointCloud2, IsPointCloud2, PointField}
use afi920_ros2_driver.Node.Rdi.{
  deliver_rdi_frame, on_rdi_frame, count_packet, process_rdi_datagram,
}
use afi920_ros2_driver.Parsers.Rdi.RoundTrip as Payload

-- What is published of a delivered frame, with an array of detections and a marker or without.
abbrev pub events_with : Bool → Bool → Option PointCloudConfig → RdiFrame → ℕ → List Event
events_with listed marked builder frame stamp =
    publish_pointcloud builder frame stamp
    ∷ ((if listed
          then publish_detection_array builder frame stamp frame.message.header.timestamp ∷ []
          else [])
        ++ (if marked then publish_marker frame.message.num_detections stamp ∷ [] else []))

abbrev pub messages_with {ℓ} :
    {P : Type ℓ} → Bool → Bool → PointCloud2Message P → DetectionArray → ℕ → ℕ → List (RosMessage P)
messages_with listed marked cloud arr count stamp =
    cloud_message cloud
    ∷ ((if listed then array_message arr ∷ [] else [])
        ++ (if marked then other_message (publish_marker count stamp) ∷ [] else []))

returned_early : {A : Type 0} (b : Bool) (x y : A) → b ≡ true → (if not b then x else y) ≡ y
returned_early b x y e = rw e refl

delivered_events :
    (n : Node) (c : PointCloudConfig) (frame : RdiFrame) (stamp : ℕ)
    → n.pub_pointcloud ≡ true
    → n.pc_builder ≡ some c
    → (deliver_rdi_frame n frame stamp).1
      ≡ events_with (n.publish_detections && n.pub_rdi) n.pub_marker (some c) frame stamp
unfolding deliver_rdi_frame on_rdi_frame count_packet
delivered_events n c frame stamp there configured =
    ap (λ (r : Node × List Event). r.1) (returned_early n.pub_pointcloud _ _ there)
    ∙ ap
        (λ (builder : Option PointCloudConfig).
          events_with (n.publish_detections && n.pub_rdi) n.pub_marker builder frame stamp)
        configured

-- What passes of the detections that the sensor sends.
abbrev pub passing : PointCloudConfig → List WireDetection → List RdiDetection
passing c ws = filter (is_within c) (map from_wire ws)

-- The array with the time that is assigned to it.
abbrev array_of : Maths → PointCloudConfig → RdiFrame → ℕ → DetectionArray
array_of maths c frame stamp = record (build_detection_array maths c frame stamp) {
  timestamp_measurement_ns = frame.message.header.timestamp;
}

-- With a builder that succeeds with the cloud.
messages_built {ℓ} :
    {P : Type ℓ} ⦃lib : PointCloud2 P⦄ (maths : Maths) (c : PointCloudConfig) (frame : RdiFrame)
    → (stamp : ℕ) (m : PointCloud2Message P) → build maths c frame stamp ≡ ok m
    → (listed marked : Bool)
    → messages maths (events_with listed marked (some c) frame stamp)
      ≡ ok (
          messages_with listed marked m
            (array_of maths c frame stamp)
            frame.message.num_detections
            stamp)
unfolding messages ros_message
messages_built maths c frame stamp m e true true = rw e refl
messages_built maths c frame stamp m e true false = rw e refl
messages_built maths c frame stamp m e false true = rw e refl
messages_built maths c frame stamp m e false false = rw e refl

module _ (maths : Maths) (c : PointCloudConfig) (header : InterfaceHeader) (ws : List WireDetection)
    (stamp : ℕ) where
  -- The array: an entry for each passing detection, and the measurement time of the sensor.
  pub record IsArrayMessage (arr : DetectionArray) : Type 0 where
    pub same_stamp : arr.stamp ≡ stamp
    pub same_frame_id : arr.frame_id ≡ c.frame_id
    pub counter : arr.message_counter ≡ header.message_counter
    pub measured : arr.timestamp_measurement_ns ≡ header.timestamp
    pub entries : arr.detections ≡ map (detection_of maths header.sensor_id) (passing c ws)

  -- The cloud: every field is declared, and it has a point for each passing detection.
  pub record IsCloudMessage {ℓ} {P : Type ℓ} ⦃lib : PointCloud2 P⦄ (m : PointCloud2Message P)
      : Type ℓ where
    pub same_stamp : m.stamp ≡ stamp
    pub same_frame_id : m.frame_id ≡ c.frame_id
    pub fields : (f : PointField) → lib.has_field m.points f ≡ true
    pub width : lib.width m.points ≡ length (passing c ws)
    pub points : Holds maths header.sensor_id m.points 0 (passing c ws)

module _ {ℓ} {P : Type ℓ} ⦃lib : PointCloud2 P⦄ ⦃laws : IsPointCloud2 P⦄ (maths : Maths)
    (c : PointCloudConfig) (header : InterfaceHeader) (velocity_begin velocity_end capability : ℕ)
    (ws : List WireDetection) (rest : List ℕ) where
  -- A sensor sends a message in one datagram: a SOME/IP header of an RDI event, an E2E header with the
  -- CRC of what follows, and the payload of a header and at most 4096 detections, all fields in range.
  -- Then, whatever the flags of the check and the state of a node with a publisher of clouds and a
  -- builder, what is published is the cloud that the builder builds with its configuration at that
  -- moment: with a point for each of the sent detections that is within the four limits of that
  -- configuration, in their order, and with their values. After it come, where they are enabled, the
  -- array with an entry for each of the same detections and with the measurement time of the sensor,
  -- and the marker with the number of all the sent detections.
  pub process_rdi_datagram_cloud :
      (n : Node) (clock : Clock) (h : SomeipHeader) (counter : ℕ)
      → n.pub_pointcloud ≡ true
      → n.pc_builder ≡ some c
      → IsEventOf event_rdi h
      → counter < 2 ^ 32
      → length (Payload.serialize header velocity_begin velocity_end capability ws rest) < 2 ^ 32
      → All IsByte (Payload.serialize header velocity_begin velocity_end capability ws rest)
      → IsInterfaceHeader header
      → velocity_begin < 2 ^ 32
      → velocity_end < 2 ^ 32
      → capability < 2 ^ 16
      → length ws ≤ rdi_max_detections
      → All IsWireDetection ws
      → (cloud : PointCloud2Message P) × (arr : DetectionArray) × ((process_rdi_datagram n clock (
              datagram h counter e2e_data_id_rdi
                (Payload.serialize header velocity_begin velocity_end capability ws rest))
            >>= λ (after, events). messages maths events)
          ≡ ok (
              messages_with
                (n.publish_detections && n.pub_rdi)
                n.pub_marker
                cloud
                arr
                (length ws)
                clock.stamp))
        × IsCloudMessage maths c header ws clock.stamp cloud
        × IsArrayMessage maths c header ws clock.stamp arr
  unfolding build_detection_array
  process_rdi_datagram_cloud n clock h counter there builder v hc hl hp hh hb he hk hn hw =
      let frame = sent_frame header velocity_begin velocity_end capability ws rest n clock in
      let next = numbered header velocity_begin velocity_end capability ws rest n in
      let (points, built, cloud) = build-IsCloudOf maths c frame clock.stamp in
      (
        _,
        array_of maths c frame clock.stamp,
        ap (λ (r : Access (Node × List Event)). r >>= λ (after, events). messages maths events)
              (process_rdi_datagram_delivers header velocity_begin velocity_end capability ws rest n
                clock h counter v hc hl hp hh hb he hk hn hw)
            ∙ ap (messages maths) (delivered_events next c frame clock.stamp there builder)
            ∙ messages_built maths c frame clock.stamp _ built (n.publish_detections && n.pub_rdi)
                n.pub_marker,
        record {
          same_stamp = refl;
          same_frame_id = refl;
          fields = cloud.fields;
          width = cloud.width ∙ ap length (sent n clock);
          points = subst (Holds maths header.sensor_id points 0) (sent n clock) cloud.points;
        },
        record {
          same_stamp = refl;
          same_frame_id = refl;
          counter = refl;
          measured = refl;
          entries =
              build_detection_array-published maths c frame clock.stamp
              ∙ ap (map (detection_of maths header.sensor_id)) (sent n clock);
        },
      )
    where
      sent :
          (n : Node) (clock : Clock)
          → published c (sent_frame header velocity_begin velocity_end capability ws rest n clock)
            ≡ passing c ws
      sent n clock =
          ap (filter (passes_filter c))
            (take_all (length ws) (map from_wire ws) (sym (length-map from_wire ws)))
          ∙ filter_same (passes_filter c) (is_within c) (passes_filter_within c) (map from_wire ws)
