-- ===== src/Parsers/Spi/Elements.antt =====
-- The elements of an SPI payload and its mounting pose, as a sensor lays them out.
use afi920_ros2_driver.Base.{
  length, ok, byte_at-ok, ℕ, ◌^◌, ◌<◌, ◌≡◌, refl, List, [], ◌∷◌, ◌++◌, arith,
}
use afi920_ros2_driver.Wire.{pack_le32}
use afi920_ros2_driver.Wire.RoundTrip.{join_le32_bytes}
use afi920_ros2_driver.Parsers.Elements.Read.{Decodes}
use afi920_ros2_driver.Parsers.SpiTypes.{
  SensorPose, FovSegment, RecognisableObjectType, ReferenceTargetType, spi_fov_segment_size,
  spi_object_type_size, spi_ref_target_size,
}
use afi920_ros2_driver.Parsers.Spi.{
  read_ref_target, read_object_type, read_fov_segment, parse_sensor_pose,
}
use afi920_ros2_driver.Parsers.Spi.Total.{float}

-- The bits of the floats are in range.
pub record IsReferenceTargetType (x : ReferenceTargetType) : Type 0 where
  pub section_fits : x.radar_cross_section < 2 ^ 32
  pub begin_fits : x.detection_range_begin < 2 ^ 32
  pub end_fits : x.detection_range_end < 2 ^ 32
  pub ratio_fits : x.signal_to_noise_ratio < 2 ^ 32

unfoldable pub serialize_ref_target : ReferenceTargetType → List ℕ
serialize_ref_target x =
    pack_le32 x.radar_cross_section
    ++ pack_le32 x.detection_range_begin
    ++ pack_le32 x.detection_range_end
    ++ pack_le32 x.signal_to_noise_ratio

pub read_ref_target-Decodes :
    Decodes read_ref_target serialize_ref_target spi_ref_target_size IsReferenceTargetType
unfolding read_ref_target serialize_ref_target pack_le32
read_ref_target-Decodes = record {
  sized = λ x. refl;
  decoded = λ x t v.
      let q = serialize_ref_target x ++ t in
      rw
        (
          float q 0 (omega arith),
          float q 4 (omega arith),
          float q 8 (omega arith),
          float q 12 (omega arith),
        )
        (λ i. ok (record {
          radar_cross_section = join_le32_bytes x.radar_cross_section v.section_fits i;
          detection_range_begin = join_le32_bytes x.detection_range_begin v.begin_fits i;
          detection_range_end = join_le32_bytes x.detection_range_end v.end_fits i;
          signal_to_noise_ratio = join_le32_bytes x.signal_to_noise_ratio v.ratio_fits i;
        }));
}

pub record IsRecognisableObjectType (x : RecognisableObjectType) : Type 0 where
  pub begin_fits : x.detection_range_begin < 2 ^ 32
  pub end_fits : x.detection_range_end < 2 ^ 32

unfoldable pub serialize_object_type : RecognisableObjectType → List ℕ
serialize_object_type x =
    x.object_type ∷ pack_le32 x.detection_range_begin ++ pack_le32 x.detection_range_end

pub read_object_type-Decodes :
    Decodes read_object_type serialize_object_type spi_object_type_size IsRecognisableObjectType
unfolding read_object_type serialize_object_type pack_le32
read_object_type-Decodes = record {
  sized = λ x. refl;
  decoded = λ x t v.
      let q = serialize_object_type x ++ t in
      rw (byte_at-ok q 0 (omega arith), float q 1 (omega arith), float q 5 (omega arith))
        (λ i. ok (record {
          object_type = x.object_type;
          detection_range_begin = join_le32_bytes x.detection_range_begin v.begin_fits i;
          detection_range_end = join_le32_bytes x.detection_range_end v.end_fits i;
        }));
}

pub record IsFovSegment (x : FovSegment) : Type 0 where
  pub azimuth_begin_fits : x.azimuth_begin < 2 ^ 32
  pub azimuth_end_fits : x.azimuth_end < 2 ^ 32
  pub elevation_begin_fits : x.elevation_begin < 2 ^ 32
  pub elevation_end_fits : x.elevation_end < 2 ^ 32

unfoldable pub serialize_fov_segment : FovSegment → List ℕ
serialize_fov_segment x =
    pack_le32 x.azimuth_begin
    ++ pack_le32 x.azimuth_end
    ++ pack_le32 x.elevation_begin
    ++ pack_le32 x.elevation_end
    ++ x.blockage_status ∷ []

pub read_fov_segment-Decodes :
    Decodes read_fov_segment serialize_fov_segment spi_fov_segment_size IsFovSegment
unfolding read_fov_segment serialize_fov_segment pack_le32
read_fov_segment-Decodes = record {
  sized = λ x. refl;
  decoded = λ x t v.
      let q = serialize_fov_segment x ++ t in
      rw
        (
          float q 0 (omega arith),
          float q 4 (omega arith),
          float q 8 (omega arith),
          float q 12 (omega arith),
          byte_at-ok q 16 (omega arith),
        )
        (λ i. ok (record {
          azimuth_begin = join_le32_bytes x.azimuth_begin v.azimuth_begin_fits i;
          azimuth_end = join_le32_bytes x.azimuth_end v.azimuth_end_fits i;
          elevation_begin = join_le32_bytes x.elevation_begin v.elevation_begin_fits i;
          elevation_end = join_le32_bytes x.elevation_end v.elevation_end_fits i;
          blockage_status = x.blockage_status;
        }));
}

-- A mounting pose as far as the payload carries it: the other errors are zero.
pub record IsSensorPose (s : SensorPose) : Type 0 where
  pub x_fits : s.origin_point_x < 2 ^ 32
  pub y_fits : s.origin_point_y < 2 ^ 32
  pub z_fits : s.origin_point_z < 2 ^ 32
  pub yaw_fits : s.orientation_yaw < 2 ^ 32
  pub pitch_fits : s.orientation_pitch < 2 ^ 32
  pub roll_fits : s.orientation_roll < 2 ^ 32
  pub error_yaw_fits : s.orientation_error_yaw < 2 ^ 32
  pub error_pitch_fits : s.orientation_error_pitch < 2 ^ 32
  pub no_error_x : 0 ≡ s.origin_point_error_x
  pub no_error_y : 0 ≡ s.origin_point_error_y
  pub no_error_z : 0 ≡ s.origin_point_error_z
  pub no_error_roll : 0 ≡ s.orientation_error_roll

unfoldable pub serialize_sensor_pose : SensorPose → List ℕ
serialize_sensor_pose s =
    pack_le32 s.origin_point_x
    ++ pack_le32 s.origin_point_y
    ++ pack_le32 s.origin_point_z
    ++ pack_le32 s.orientation_yaw
    ++ pack_le32 s.orientation_pitch
    ++ pack_le32 s.orientation_roll
    ++ pack_le32 s.orientation_error_yaw
    ++ pack_le32 s.orientation_error_pitch

pub length-serialize_sensor_pose : (s : SensorPose) → length (serialize_sensor_pose s) ≡ 32
unfolding serialize_sensor_pose pack_le32
length-serialize_sensor_pose s = refl

pub parse_sensor_pose-serialize :
    (s : SensorPose) (t : List ℕ)
    → IsSensorPose s
    → parse_sensor_pose (serialize_sensor_pose s ++ t) ≡ ok s
unfolding parse_sensor_pose serialize_sensor_pose pack_le32
parse_sensor_pose-serialize s t v =
    let q = serialize_sensor_pose s ++ t in
    rw
      (
        float q 0 (omega arith),
        float q 4 (omega arith),
        float q 8 (omega arith),
        float q 12 (omega arith),
        float q 16 (omega arith),
        float q 20 (omega arith),
        float q 24 (omega arith),
        float q 28 (omega arith),
      )
      (λ i. ok (record {
        origin_point_x = join_le32_bytes s.origin_point_x v.x_fits i;
        origin_point_y = join_le32_bytes s.origin_point_y v.y_fits i;
        origin_point_z = join_le32_bytes s.origin_point_z v.z_fits i;
        origin_point_error_x = v.no_error_x i;
        origin_point_error_y = v.no_error_y i;
        origin_point_error_z = v.no_error_z i;
        orientation_yaw = join_le32_bytes s.orientation_yaw v.yaw_fits i;
        orientation_pitch = join_le32_bytes s.orientation_pitch v.pitch_fits i;
        orientation_roll = join_le32_bytes s.orientation_roll v.roll_fits i;
        orientation_error_yaw = join_le32_bytes s.orientation_error_yaw v.error_yaw_fits i;
        orientation_error_pitch = join_le32_bytes s.orientation_error_pitch v.error_pitch_fits i;
        orientation_error_roll = v.no_error_roll i;
      }))
