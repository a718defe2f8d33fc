-- ===== src/Node/Spi/Stream.antt =====
-- An SPI message that a sensor sends is published as it was sent, with the mounting pose.
use afi920_ros2_driver.Base.{
  if◌then◌else◌, le→ltb, length, take, All, ok, ℕ, ◌^◌, ◌<◌, ◌≡◌, refl, ap, ◌∙◌, Bool, true, false,
  not, some, List, [], ◌∷◌, ◌++◌, arith,
}
use afi920_ros2_driver.E2e.{e2e_data_id_spi}
use afi920_ros2_driver.Wire.{IsByte}
use afi920_ros2_driver.Someip.{SomeipHeader, event_spi, someip_header_size}
use afi920_ros2_driver.Parsers.Iso.{InterfaceHeader}
use afi920_ros2_driver.Parsers.Iso.Header.{IsInterfaceHeader}
use afi920_ros2_driver.Parsers.Elements.Read.{take-overlay}
use afi920_ros2_driver.Parsers.SpiTypes.{
  spi_message_init, spi_max_fov_segments, spi_max_object_types, spi_max_ref_targets,
}
use afi920_ros2_driver.Parsers.Spi.RoundTrip as Payload
use afi920_ros2_driver.E2e.Protect.{header_of}
use afi920_ros2_driver.Node.Types.{
  Node, Clock, SensorPerformance, Transform, send_transform, publish_performance,
}
use afi920_ros2_driver.Node.Datagram.{
  IsEventOf, accepted-header, datagram, datagram-size, drop-datagram, deserialize-datagram,
}
use afi920_ros2_driver.Node.Gate.{is_zero}
use afi920_ros2_driver.Node.Gate.Strict.{consume-protect}
use afi920_ros2_driver.Node.Spi.{
  sensor_performance, mounting_pose, on_spi_message, spi_payload_received, process_spi_datagram,
}

-- The datagram passes the checks of both headers.
process-datagram :
    (n : Node) (clock : Clock) (h : SomeipHeader) (counter : ℕ) (iso : List ℕ)
    → IsEventOf event_spi h
    → counter < 2 ^ 32
    → length iso < 2 ^ 32
    → All IsByte iso
    → process_spi_datagram n clock (datagram h counter e2e_data_id_spi iso)
      ≡ spi_payload_received n clock (some (iso, header_of counter e2e_data_id_spi iso))
unfolding process_spi_datagram
process-datagram n clock h counter iso v hc hl hb =
    let (valid, event, _) = accepted-header event_spi h v in
    rw (
      le→ltb (length (datagram h counter e2e_data_id_spi iso)) someip_header_size
          (datagram-size h counter e2e_data_id_spi iso),
      drop-datagram h counter e2e_data_id_spi iso,
      deserialize-datagram h counter e2e_data_id_spi iso v.fields,
      valid,
      event,
      consume-protect n.validate_e2e n.e2e_strict counter e2e_data_id_spi iso hc (omega arith) hl
          hb,
    )

-- Where the publisher exists, the callback does not return early.
not_returned : {A : Type 0} (b : Bool) (x y : A) → b ≡ true → (if not b then x else y) ≡ y
not_returned b x y e = rw e refl

module _ (header : InterfaceHeader) (w : Payload.WireSpi) (rest : List ℕ) where
  -- The messages that the report stands for: the header's identification, the pose, and of each
  -- section as many elements as the interface allows.
  abbrev pub performance_of : Node → ℕ → SensorPerformance
  performance_of n stamp = record {
    stamp = stamp;
    frame_id = n.frame_id;
    sensor_id = header.sensor_id;
    message_counter = header.message_counter;
    data_qualifier = header.data_qualifier;
    timestamp_measurement_ns = header.timestamp;
    vehicle_coordinate_system = w.coordinate_system;
    sensor_pose = w.pose;
    fov_segments = take spi_max_fov_segments w.segments;
    recognisable_objects = take spi_max_object_types w.object_types;
    reference_targets = take spi_max_ref_targets w.targets;
  }

  abbrev pub transform_of : Node → ℕ → Transform
  transform_of n stamp = record {
    stamp = stamp;
    parent_frame_id = n.parent_frame_id;
    child_frame_id = n.frame_id;
    x = w.pose.origin_point_x;
    y = w.pose.origin_point_y;
    z = w.pose.origin_point_z;
    roll = w.pose.orientation_roll;
    pitch = w.pose.orientation_pitch;
    yaw = w.pose.orientation_yaw;
  }

  performance_of-message :
      (n : Node) (stamp : ℕ)
      → sensor_performance n stamp (Payload.message_of header w rest) ≡ performance_of n stamp
  unfolding sensor_performance
  performance_of-message n stamp = λ i. record {
    stamp = stamp;
    frame_id = n.frame_id;
    sensor_id = header.sensor_id;
    message_counter = header.message_counter;
    data_qualifier = header.data_qualifier;
    timestamp_measurement_ns = header.timestamp;
    vehicle_coordinate_system = w.coordinate_system;
    sensor_pose = w.pose;
    fov_segments =
        take-overlay spi_max_fov_segments spi_message_init.fov_segments w.segments refl i;
    recognisable_objects =
        take-overlay spi_max_object_types spi_message_init.recognisable_object_types w.object_types
          refl i;
    reference_targets =
        take-overlay spi_max_ref_targets spi_message_init.reference_target_types w.targets refl i;
  }

  callback :
      (n : Node) (stamp : ℕ)
      → n.pub_spi ≡ true
      → on_spi_message n (Payload.message_of header w rest) stamp ≡ (
        record n { first_spi = false; last_spi_counter = header.message_counter },
        (if n.tf_broadcaster then send_transform (transform_of n stamp) ∷ [] else [])
            ++ publish_performance (performance_of n stamp) ∷ [],
      )
  unfolding on_spi_message mounting_pose
  callback n stamp on =
      not_returned n.pub_spi _ _ on
      ∙ ap
          (λ (m : SensorPerformance). (
            record n { first_spi = false; last_spi_counter = header.message_counter },
            (if n.tf_broadcaster then send_transform (transform_of n stamp) ∷ [] else [])
                ++ publish_performance m ∷ [],
          ))
          (performance_of-message n stamp)

  -- A sensor sends a report: a SOME/IP header of an SPI event, an E2E header with the CRC of what
  -- follows, and the payload, all bytes and fields in range. Then a node that publishes the
  -- performance publishes, whatever the flags of the check, one message with the identification of the
  -- header and with the report's coordinate system, pose, segments, types and targets, of each section
  -- at most the first 16. Before it the node sends the pose as a transform if it has a broadcaster.
  pub process_spi_datagram_delivers :
      (n : Node) (clock : Clock) (h : SomeipHeader) (counter : ℕ)
      → n.pub_spi ≡ true
      → IsEventOf event_spi h
      → counter < 2 ^ 32
      → length (Payload.serialize header w rest) < 2 ^ 32
      → All IsByte (Payload.serialize header w rest)
      → IsInterfaceHeader header
      → Payload.IsWireSpi w
      → process_spi_datagram n clock
          (datagram h counter e2e_data_id_spi (Payload.serialize header w rest))
        ≡ ok (
          record n { first_spi = false; last_spi_counter = header.message_counter },
          (if n.tf_broadcaster then send_transform (transform_of n clock.stamp) ∷ [] else [])
              ++ publish_performance (performance_of n clock.stamp) ∷ [],
        )
  unfolding spi_payload_received is_zero
  process_spi_datagram_delivers n clock h counter on v hc hl hb hh hw =
      process-datagram n clock h counter (Payload.serialize header w rest) v hc hl hb
      ∙ rw (Payload.parse-performance header w rest spi_message_init hh hw)
          (ap ok (callback n clock.stamp on))
