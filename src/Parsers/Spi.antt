-- ===== src/Parsers/Spi.antt =====
-- src/spi_parser.cpp: `SpiParser::Parse`, one function for each section of the payload, which calls
-- the next. `offset` and the message so far are arguments; an early return keeps what was filled in.
pub mod Total
pub mod Elements
pub mod RoundTrip
mod Runs
use afi920_ros2_driver.Wire.{unpack_le_f32}
use afi920_ros2_driver.Base.{
  ltb, if◌then◌else◌, ℤ, pos, negsuc, length, drop, Access, ok, ◌>>=◌, byte_at, ℕ, ◌+◌, ◌*◌, min,
  Option, none, some, List,
}
use afi920_ros2_driver.Parsers.Iso.{parse_interface_header, common_header_size}
use afi920_ros2_driver.Parsers.Section.{with_count}
use afi920_ros2_driver.Parsers.Elements.{parse_elements}
use afi920_ros2_driver.Parsers.SpiTypes.{
  spi_sensor_pose_size, spi_fov_segment_size, spi_object_type_size, spi_ref_target_size,
  spi_max_fov_segments, spi_max_object_types, spi_max_ref_targets, SensorPose, FovSegment,
  RecognisableObjectType, ReferenceTargetType, SpiMessage, spi_message_init,
}

abbrev pub vehicle_coordinate_size : ℕ
vehicle_coordinate_size = 1

abbrev pub spi_min_size : ℕ
spi_min_size = common_header_size + vehicle_coordinate_size + spi_sensor_pose_size

unfoldable pub read_ref_target : List ℕ → Access ReferenceTargetType
read_ref_target q = do
  radar_cross_section ← unpack_le_f32 q
  detection_range_begin ← unpack_le_f32 (drop 4 q)
  detection_range_end ← unpack_le_f32 (drop 8 q)
  signal_to_noise_ratio ← unpack_le_f32 (drop 12 q)
  ok (record {
    radar_cross_section = radar_cross_section;
    detection_range_begin = detection_range_begin;
    detection_range_end = detection_range_end;
    signal_to_noise_ratio = signal_to_noise_ratio;
  })

unfoldable pub read_object_type : List ℕ → Access RecognisableObjectType
read_object_type q = do
  object_type ← byte_at q 0
  detection_range_begin ← unpack_le_f32 (drop 1 q)
  detection_range_end ← unpack_le_f32 (drop 5 q)
  ok (record {
    object_type = object_type;
    detection_range_begin = detection_range_begin;
    detection_range_end = detection_range_end;
  })

unfoldable pub read_fov_segment : List ℕ → Access FovSegment
read_fov_segment q = do
  azimuth_begin ← unpack_le_f32 q
  azimuth_end ← unpack_le_f32 (drop 4 q)
  elevation_begin ← unpack_le_f32 (drop 8 q)
  elevation_end ← unpack_le_f32 (drop 12 q)
  blockage_status ← byte_at q 16
  ok (record {
    azimuth_begin = azimuth_begin;
    azimuth_end = azimuth_end;
    elevation_begin = elevation_begin;
    elevation_end = elevation_end;
    blockage_status = blockage_status;
  })

unfoldable pub parse_reference_targets : List ℕ → ℕ → SpiMessage → Access (ℤ × SpiMessage)
parse_reference_targets p offset msg =
    with_count p offset spi_ref_target_size (pos 0, msg) (negsuc 0, msg)
      λ declared.
        let n = min declared spi_max_ref_targets in
        do
          targets ←
              parse_elements read_ref_target p spi_ref_target_size n declared 0 (offset + 1)
                msg.reference_target_types
          ok (
            pos 0,
            record msg { num_reference_target_types = n; reference_target_types = targets },
          )

unfoldable pub parse_object_types : List ℕ → ℕ → SpiMessage → Access (ℤ × SpiMessage)
parse_object_types p offset msg =
    with_count p offset spi_object_type_size (pos 0, msg) (negsuc 0, msg)
      λ declared.
        let n = min declared spi_max_object_types in
        do
          types ←
              parse_elements read_object_type p spi_object_type_size n declared 0 (offset + 1)
                msg.recognisable_object_types
          parse_reference_targets p (offset + 1 + declared * spi_object_type_size)
              (record msg { num_recognisable_object_types = n; recognisable_object_types = types })

unfoldable pub parse_fov_segments : List ℕ → ℕ → SpiMessage → Access (ℤ × SpiMessage)
parse_fov_segments p offset msg =
    with_count p offset spi_fov_segment_size (pos 0, msg) (negsuc 0, msg)
      λ declared.
        let n = min declared spi_max_fov_segments in
        do
          segments ←
              parse_elements read_fov_segment p spi_fov_segment_size n declared 0 (offset + 1)
                msg.fov_segments
          parse_object_types p (offset + 1 + declared * spi_fov_segment_size)
              (record msg { num_fov_segments = n; fov_segments = segments })

-- The errors of the origin and of the roll are not on the wire.
unfoldable pub parse_sensor_pose : List ℕ → Access SensorPose
parse_sensor_pose q = do
  x ← unpack_le_f32 q
  y ← unpack_le_f32 (drop 4 q)
  z ← unpack_le_f32 (drop 8 q)
  yaw ← unpack_le_f32 (drop 12 q)
  pitch ← unpack_le_f32 (drop 16 q)
  roll ← unpack_le_f32 (drop 20 q)
  error_yaw ← unpack_le_f32 (drop 24 q)
  error_pitch ← unpack_le_f32 (drop 28 q)
  ok (record {
    origin_point_x = x;
    origin_point_y = y;
    origin_point_z = z;
    origin_point_error_x = 0;
    origin_point_error_y = 0;
    origin_point_error_z = 0;
    orientation_yaw = yaw;
    orientation_pitch = pitch;
    orientation_roll = roll;
    orientation_error_yaw = error_yaw;
    orientation_error_pitch = error_pitch;
    orientation_error_roll = 0;
  })

unfoldable pub parse : Option (List ℕ) → SpiMessage → Access (ℤ × SpiMessage)
parse none msg = ok (negsuc 0, msg)
parse (some payload) msg = if ltb (length payload) spi_min_size then ok (negsuc 0, msg) else do
  header ← parse_interface_header payload
  coordinate_system ← byte_at payload common_header_size
  pose ← parse_sensor_pose (drop (common_header_size + vehicle_coordinate_size) payload)
  parse_fov_segments payload spi_min_size (record spi_message_init {
    header = header;
    vehicle_coordinate_system = coordinate_system;
    sensor_pose = pose;
  })
