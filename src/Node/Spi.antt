-- ===== src/Node/Spi.antt =====
-- The SPI stream in src/afi920_node.cpp, from the datagram to the performance message and the
-- transform.
pub mod Total
pub mod Stream
mod Runs
use afi920_ros2_driver.Someip.{someip_header_size, someip_deserialize, someip_validate, event_spi}
use afi920_ros2_driver.E2e.{E2eHeader, e2e_data_id_spi}
use afi920_ros2_driver.Base.{
  ltb, ◌!=◌, if◌then◌else◌, is_negative, length, take, drop, Access, ok, ◌>>=◌, ℕ, min, false, not,
  ◌||◌, Option, none, some, List, [], ◌∷◌, ◌++◌,
}
use afi920_ros2_driver.Parsers.Spi.{parse}
use afi920_ros2_driver.Parsers.SpiTypes.{
  SpiMessage, spi_message_init, spi_max_fov_segments, spi_max_object_types, spi_max_ref_targets,
}
use afi920_ros2_driver.Node.Types.{
  Node, Event, Clock, SensorPerformance, Transform, send_transform, publish_performance,
  someip_header_unset,
}
use afi920_ros2_driver.Node.Gate.{consume_e2e_header, is_zero}

unfoldable pub sensor_performance : Node → ℕ → SpiMessage → SensorPerformance
sensor_performance n stamp msg =
    let n_fov = min msg.num_fov_segments spi_max_fov_segments in
    let n_obj = min msg.num_recognisable_object_types spi_max_object_types in
    let n_ref = min msg.num_reference_target_types spi_max_ref_targets in
    record {
      stamp = stamp;
      frame_id = n.frame_id;
      sensor_id = msg.header.sensor_id;
      message_counter = msg.header.message_counter;
      data_qualifier = msg.header.data_qualifier;
      timestamp_measurement_ns = msg.header.timestamp;
      vehicle_coordinate_system = msg.vehicle_coordinate_system;
      sensor_pose = msg.sensor_pose;
      fov_segments = take n_fov msg.fov_segments;
      recognisable_objects = take n_obj msg.recognisable_object_types;
      reference_targets = take n_ref msg.reference_target_types;
    }

unfoldable pub mounting_pose : Node → ℕ → SpiMessage → Transform
mounting_pose n stamp msg = record {
  stamp = stamp;
  parent_frame_id = n.parent_frame_id;
  child_frame_id = n.frame_id;
  x = msg.sensor_pose.origin_point_x;
  y = msg.sensor_pose.origin_point_y;
  z = msg.sensor_pose.origin_point_z;
  roll = msg.sensor_pose.orientation_roll;
  pitch = msg.sensor_pose.orientation_pitch;
  yaw = msg.sensor_pose.orientation_yaw;
}

-- The test for a gap between the counters only leads to a log message.
unfoldable pub on_spi_message : Node → SpiMessage → ℕ → Node × List Event
on_spi_message n msg stamp = if not n.pub_spi then (n, []) else (
  record n { first_spi = false; last_spi_counter = msg.header.message_counter },
  (if n.tf_broadcaster then send_transform (mounting_pose n stamp msg) ∷ [] else [])
      ++ publish_performance (sensor_performance n stamp msg) ∷ [],
)

unfoldable pub spi_payload_received :
    Node → Clock → Option (List ℕ × E2eHeader) → Access (Node × List Event)
unfolding is_zero
spi_payload_received n clock none = ok (n, [])
spi_payload_received n clock (some (payload, e2e)) = do
  (rc, msg) ← parse (some payload) spi_message_init
  ok (if is_zero rc then on_spi_message n msg clock.stamp else (n, []))

unfoldable pub process_spi_datagram : Node → Clock → List ℕ → Access (Node × List Event)
process_spi_datagram n clock datagram =
    if ltb (length datagram) someip_header_size then ok (n, []) else do
      (rc, hdr) ← someip_deserialize (some datagram) someip_header_unset
      if is_negative rc || not (someip_validate hdr) || hdr.method_id != event_spi
          then ok (n, [])
          else (do
            consumed ←
                consume_e2e_header n.validate_e2e n.e2e_strict (drop someip_header_size datagram)
                  e2e_data_id_spi
            spi_payload_received n clock consumed)
