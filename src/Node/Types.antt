-- ===== src/Node/Types.antt =====
-- The members of `Afi920Node` that the receiving threads read or write, and what it publishes. Log
-- messages are left out, and so is the percentage that only they print.
use afi920_ros2_driver.Base.{ℕ, Bool, true, false, Option, none, List, []}
use afi920_ros2_driver.Parsers.SpiTypes.{
  SensorPose, FovSegment, RecognisableObjectType, ReferenceTargetType,
}
use afi920_ros2_driver.Parsers.RdiTypes.{RdiFrame}
use afi920_ros2_driver.Someip.Tp.{Reassembler, reassembler_init}
use afi920_ros2_driver.Someip.{SomeipHeader}

-- The arrays are as long as the ones of the SHII message.
pub record HealthInfo : Type 0 where
  pub stamp : ℕ
  pub frame_id : List ℕ
  pub sensor_id : ℕ
  pub message_counter : ℕ
  pub data_qualifier : ℕ
  pub num_operation_modes : ℕ
  pub operation_modes : List ℕ
  pub defect_recognised : ℕ
  pub defect_reason : ℕ
  pub supply_voltage_status : ℕ
  pub temperature_status : ℕ
  pub num_input_signal_statuses : ℕ
  pub input_signal_types : List ℕ
  pub input_signal_statuses : List ℕ
  pub time_sync_status : ℕ
  pub time_sync_offset : ℕ
  pub num_calibration_components : ℕ
  pub calibration_components : List ℕ
  pub calibration_statuses : List ℕ
  pub calibration_states : List ℕ
  pub timestamp_measurement_ns : ℕ

-- Its lists have the sizes that the code gives them by `resize`.
pub record SensorPerformance : Type 0 where
  pub stamp : ℕ
  pub frame_id : List ℕ
  pub sensor_id : ℕ
  pub message_counter : ℕ
  pub data_qualifier : ℕ
  pub timestamp_measurement_ns : ℕ
  pub vehicle_coordinate_system : ℕ
  pub sensor_pose : SensorPose
  pub fov_segments : List FovSegment
  pub recognisable_objects : List RecognisableObjectType
  pub reference_targets : List ReferenceTargetType

-- The mounting pose as it is broadcast, from the parent frame to the frame of the sensor. The
-- rotation is given by its angles, which `setRPY` of tf2 turns into a quaternion.
pub record Transform : Type 0 where
  pub stamp : ℕ
  pub parent_frame_id : List ℕ
  pub child_frame_id : List ℕ
  pub x : ℕ
  pub y : ℕ
  pub z : ℕ
  pub roll : ℕ
  pub pitch : ℕ
  pub yaw : ℕ

-- `PointCloudConfig`; the limits are doubles by their bits.
pub record PointCloudConfig : Type 0 where
  pub frame_id : List ℕ
  pub min_range : ℕ
  pub max_range : ℕ
  pub min_snr : ℕ
  pub min_existence_probability : ℕ

-- What is published: what the builder, with the configuration that it has at that moment, builds of the
-- frame with the time stamp, a cloud or an array of detections, the latter with the measurement time
-- that is assigned to it (Node.Rdi.Messages makes these two calls); the marker with the number of
-- points; the health and the performance message; and the transform.
pub data Event : Type 0 where
  publish_pointcloud : Option PointCloudConfig → RdiFrame → ℕ → Event
  publish_detection_array : Option PointCloudConfig → RdiFrame → ℕ → ℕ → Event
  publish_marker : ℕ → ℕ → Event
  publish_health : HealthInfo → Event
  publish_performance : SensorPerformance → Event
  send_transform : Transform → Event

-- A publisher is there (`true`) or a null pointer; of the point cloud builder, what it is
-- configured with.
pub record Node : Type 0 where
  pub validate_e2e : Bool
  pub e2e_strict : Bool
  pub frame_id : List ℕ
  pub parent_frame_id : List ℕ
  pub min_range : ℕ
  pub max_range : ℕ
  pub min_snr : ℕ
  pub min_existence_probability : ℕ
  pub pc_builder : Option PointCloudConfig
  pub publish_detections : Bool
  pub pub_pointcloud : Bool
  pub pub_rdi : Bool
  pub pub_shi : Bool
  pub pub_spi : Bool
  pub tf_broadcaster : Bool
  pub pub_marker : Bool
  pub rdi_tp : Reassembler
  pub rdi_frame_count : ℕ
  pub rdi_frame_seq : ℕ
  pub total_packets : ℕ
  pub lost_packets : ℕ
  pub last_rdi_counter : ℕ
  pub first_rdi : Bool
  pub last_shi_counter : ℕ
  pub first_shi : Bool
  pub last_spi_counter : ℕ
  pub first_spi : Bool
  pub rdi_diag_count : ℕ

-- A node as it starts, with every publisher; the parameters are not read yet.
abbrev pub node_init : Node
node_init = record {
  validate_e2e = true;
  e2e_strict = false;
  frame_id = [];
  parent_frame_id = [];
  min_range = 0;
  max_range = 0;
  min_snr = 0;
  min_existence_probability = 0;
  pc_builder = none;
  publish_detections = true;
  pub_pointcloud = true;
  pub_rdi = true;
  pub_shi = true;
  pub_spi = true;
  tf_broadcaster = true;
  pub_marker = true;
  rdi_tp = reassembler_init;
  rdi_frame_count = 0;
  rdi_frame_seq = 0;
  total_packets = 0;
  lost_packets = 0;
  last_rdi_counter = 0;
  first_rdi = true;
  last_shi_counter = 0;
  first_shi = true;
  last_spi_counter = 0;
  first_spi = true;
  rdi_diag_count = 0;
}

-- The clocks that the handling of one datagram reads, in order: the reassembler twice, the receive
-- time of the frame, and the time of ROS.
pub record Clock : Type 0 where
  pub checked : ℕ
  pub started : ℕ
  pub received : ℕ
  pub stamp : ℕ

-- `SomeipHeader hdr;` holds nothing that is read.
abbrev pub someip_header_unset : SomeipHeader
someip_header_unset = record {
  service_id = 0;
  method_id = 0;
  length = 0;
  client_id = 0;
  session_id = 0;
  protocol_version = 0;
  interface_version = 0;
  message_type = 0;
  return_code = 0;
}
