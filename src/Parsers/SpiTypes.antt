-- ===== src/Parsers/SpiTypes.antt =====
-- The structures of include/afi920_driver/interface/AFI920/bts_iso23150_spi.h; an enumeration is the
-- number that the payload carries, and a float is its bits.
use afi920_ros2_driver.Base.{replicate, ℕ, List}
use afi920_ros2_driver.Parsers.Iso.{InterfaceHeader, zero_interface_header}

abbrev pub spi_sensor_pose_size : ℕ
spi_sensor_pose_size = 32

abbrev pub spi_fov_segment_size : ℕ
spi_fov_segment_size = 17

abbrev pub spi_object_type_size : ℕ
spi_object_type_size = 9

abbrev pub spi_ref_target_size : ℕ
spi_ref_target_size = 16

abbrev pub spi_max_fov_segments : ℕ
spi_max_fov_segments = 16

abbrev pub spi_max_object_types : ℕ
spi_max_object_types = 16

abbrev pub spi_max_ref_targets : ℕ
spi_max_ref_targets = 16

pub record SensorPose : Type 0 where
  pub origin_point_x : ℕ
  pub origin_point_y : ℕ
  pub origin_point_z : ℕ
  pub origin_point_error_x : ℕ
  pub origin_point_error_y : ℕ
  pub origin_point_error_z : ℕ
  pub orientation_yaw : ℕ
  pub orientation_pitch : ℕ
  pub orientation_roll : ℕ
  pub orientation_error_yaw : ℕ
  pub orientation_error_pitch : ℕ
  pub orientation_error_roll : ℕ

pub record FovSegment : Type 0 where
  pub azimuth_begin : ℕ
  pub azimuth_end : ℕ
  pub elevation_begin : ℕ
  pub elevation_end : ℕ
  pub blockage_status : ℕ

pub record RecognisableObjectType : Type 0 where
  pub object_type : ℕ
  pub detection_range_begin : ℕ
  pub detection_range_end : ℕ

pub record ReferenceTargetType : Type 0 where
  pub radar_cross_section : ℕ
  pub detection_range_begin : ℕ
  pub detection_range_end : ℕ
  pub signal_to_noise_ratio : ℕ

pub record SpiMessage : Type 0 where
  pub header : InterfaceHeader
  pub vehicle_coordinate_system : ℕ
  pub sensor_pose : SensorPose
  pub num_fov_segments : ℕ
  pub fov_segments : List FovSegment
  pub num_recognisable_object_types : ℕ
  pub recognisable_object_types : List RecognisableObjectType
  pub num_reference_target_types : ℕ
  pub reference_target_types : List ReferenceTargetType

-- `memset(&msg, 0, sizeof(msg))`
abbrev pub spi_message_init : SpiMessage
spi_message_init = record {
  header = zero_interface_header;
  vehicle_coordinate_system = 0;
  sensor_pose = record {
    origin_point_x = 0;
    origin_point_y = 0;
    origin_point_z = 0;
    origin_point_error_x = 0;
    origin_point_error_y = 0;
    origin_point_error_z = 0;
    orientation_yaw = 0;
    orientation_pitch = 0;
    orientation_roll = 0;
    orientation_error_yaw = 0;
    orientation_error_pitch = 0;
    orientation_error_roll = 0;
  };
  num_fov_segments = 0;
  fov_segments = replicate spi_max_fov_segments (record {
    azimuth_begin = 0;
    azimuth_end = 0;
    elevation_begin = 0;
    elevation_end = 0;
    blockage_status = 0;
  });
  num_recognisable_object_types = 0;
  recognisable_object_types =
      replicate spi_max_object_types
        (record { object_type = 0; detection_range_begin = 0; detection_range_end = 0 });
  num_reference_target_types = 0;
  reference_target_types = replicate spi_max_ref_targets (record {
    radar_cross_section = 0;
    detection_range_begin = 0;
    detection_range_end = 0;
    signal_to_noise_ratio = 0;
  });
}
