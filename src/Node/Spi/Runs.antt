-- ===== src/Node/Spi/Runs.antt =====
-- The theorem on the SPI stream at a concrete datagram.
use afi920_ros2_driver.Base.{ok, ◌≡◌, refl, true, false, [], ◌∷◌, arith}
use afi920_ros2_driver.Wire.{pack_le32, pack_le64}
use afi920_ros2_driver.Someip.{SomeipHeader, event_spi}
use afi920_ros2_driver.E2e.{e2e_data_id_spi}
use afi920_ros2_driver.Parsers.Iso.{zero_interface_header}
use afi920_ros2_driver.Parsers.Iso.Header.{serialize_interface_header}
use afi920_ros2_driver.Parsers.Elements.Read.{serialize_elements}
use afi920_ros2_driver.Parsers.Spi.Elements.{serialize_object_type, serialize_sensor_pose}
use afi920_ros2_driver.Parsers.Spi.RoundTrip as Payload
use afi920_ros2_driver.Node.Types.{Node, node_init, send_transform, publish_performance}
use afi920_ros2_driver.Node.Datagram.{datagram}
use afi920_ros2_driver.Node.Spi.{process_spi_datagram}
use afi920_ros2_driver.Node.Spi.Stream.{performance_of, transform_of, process_spi_datagram_delivers}
use afi920_ros2_driver.Node.Samples.{clock, event_header}

-- A pose and two object types.
abbrev performance : Payload.WireSpi
performance = record {
  coordinate_system = 1;
  pose = record {
    origin_point_x = 1;
    origin_point_y = 2;
    origin_point_z = 3;
    origin_point_error_x = 0;
    origin_point_error_y = 0;
    origin_point_error_z = 0;
    orientation_yaw = 4;
    orientation_pitch = 5;
    orientation_roll = 6;
    orientation_error_yaw = 7;
    orientation_error_pitch = 8;
    orientation_error_roll = 0;
  };
  segments = [];
  object_types =
      record { object_type = 2; detection_range_begin = 3; detection_range_end = 400 }
      ∷ record { object_type = 5; detection_range_begin = 6; detection_range_end = 700 }
      ∷ [];
  targets = [];
}

abbrev performance_event : SomeipHeader
performance_event = record event_header { method_id = event_spi }

-- A node that publishes the performance and broadcasts the pose.
abbrev publisher : Node
publisher = record node_init { pub_spi = true; tf_broadcaster = true }

process_spi_datagram_delivers_example :
    process_spi_datagram publisher clock (
      datagram performance_event 7 e2e_data_id_spi
        (Payload.serialize zero_interface_header performance []))
    ≡ ok (
      record publisher { first_spi = false; last_spi_counter = 0 },
      send_transform (transform_of zero_interface_header performance [] publisher 13)
          ∷ publish_performance (performance_of zero_interface_header performance [] publisher 13)
          ∷ [],
    )
unfolding Payload.serialize serialize_interface_header serialize_sensor_pose serialize_elements
    serialize_object_type pack_le32 pack_le64
process_spi_datagram_delivers_example =
    process_spi_datagram_delivers zero_interface_header performance [] publisher clock
      performance_event 7 refl
      (record { fields = omega arith; service = refl; event = refl; notification = refl })
      (omega arith) (omega arith) (omega arith) (omega arith) (omega arith)
