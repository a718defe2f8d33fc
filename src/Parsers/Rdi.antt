-- ===== src/Parsers/Rdi.antt =====
-- src/rdi_parser.cpp. The structures that it fills are in Parsers/RdiTypes.antt.
pub mod Total
pub mod Layout
pub mod RoundTrip
mod Runs
use afi920_ros2_driver.Base.{
  ltb, if◌then◌else◌, ℤ, pos, negsuc, length, drop, Access, ok, ◌>>=◌, byte_at, ℕ, zero, suc, ◌+◌,
  ◌-◌, ◌*◌, ◌/◌, ◌%◌, ◌^◌, Option, none, some, List, [], ◌∷◌,
}
use afi920_ros2_driver.Wire.{unpack_le16, unpack_le_f32}
use afi920_ros2_driver.Parsers.Iso.{parse_interface_header}
use afi920_ros2_driver.Parsers.RdiTypes.{
  rdi_header_size, rdi_detection_size, rdi_max_detections, RdiDetection, rdi_detection_init,
  RdiFrame,
}

-- The result code 0 is never looked at, and is left out.
unfoldable pub parse_detection : List ℕ → Access RdiDetection
parse_detection d = do
  existence_probability ← byte_at d 0
  detection_id ← unpack_le16 (drop 1 d)
  object_id_reference ← unpack_le16 (drop 3 d)
  timestamp_difference ← unpack_le_f32 (drop 5 d)
  radar_cross_section ← unpack_le_f32 (drop 9 d)
  signal_to_noise_ratio ← unpack_le_f32 (drop 13 d)
  ambiguity_grouping_id ← unpack_le16 (drop 17 d)
  position_radial_distance ← unpack_le_f32 (drop 19 d)
  position_azimuth ← unpack_le_f32 (drop 23 d)
  position_elevation ← unpack_le_f32 (drop 27 d)
  position_radial_distance_error ← unpack_le_f32 (drop 31 d)
  position_azimuth_error ← unpack_le_f32 (drop 35 d)
  position_elevation_error ← unpack_le_f32 (drop 39 d)
  relative_velocity_radial ← unpack_le_f32 (drop 43 d)
  relative_velocity_radial_error ← unpack_le_f32 (drop 47 d)
  ok (record rdi_detection_init {
    existence_probability = existence_probability;
    detection_id = detection_id;
    object_id_reference = object_id_reference;
    timestamp_difference = timestamp_difference;
    radar_cross_section = radar_cross_section;
    signal_to_noise_ratio = signal_to_noise_ratio;
    ambiguity_grouping_id = ambiguity_grouping_id;
    position_radial_distance = position_radial_distance;
    position_azimuth = position_azimuth;
    position_elevation = position_elevation;
    position_radial_distance_error = position_radial_distance_error;
    position_azimuth_error = position_azimuth_error;
    position_elevation_error = position_elevation_error;
    relative_velocity_radial = relative_velocity_radial;
    relative_velocity_radial_error = relative_velocity_radial_error;
  })

-- The loop over the detections from number `i` on, with the rounds that are left.
unfoldable pub parse_detections : List ℕ → ℕ → ℕ → Access (List RdiDetection)
parse_detections payload i zero = ok []
parse_detections payload i (suc n) = do
  d ← parse_detection (drop (rdi_header_size + i * rdi_detection_size) payload)
  ds ← parse_detections payload (i + 1) n
  ok (d ∷ ds)

-- The number of detections to read: what the header says, cut to the maximum and to what is there.
unfoldable pub clamp_detections : ℕ → ℕ → ℕ
clamp_detections len declared =
    let capped = if ltb rdi_max_detections declared then rdi_max_detections else declared in
    let expected = rdi_header_size + capped * rdi_detection_size in
    if ltb len expected then (len - rdi_header_size) / rdi_detection_size % 2 ^ 16 else capped

unfoldable pub parse : Option (List ℕ) → RdiFrame → Access (ℤ × RdiFrame)
parse none frame = ok (negsuc 0, frame)
parse (some payload) frame =
    if ltb (length payload) rdi_header_size then ok (negsuc 0, frame) else do
      header ← parse_interface_header payload
      radial_velocity_begin ← unpack_le_f32 (drop 24 payload)
      radial_velocity_end ← unpack_le_f32 (drop 28 payload)
      capability ← unpack_le16 (drop 32 payload)
      declared ← unpack_le16 (drop 34 payload)
      let num_detections = clamp_detections (length payload) declared
      detections ← parse_detections payload 0 num_detections
      ok (
        pos 0,
        record frame {
          message = record {
            header = header;
            ambiguity_domain = record {
              radial_velocity_begin = radial_velocity_begin;
              radial_velocity_end = radial_velocity_end;
              range_begin = 0;
              range_end = 0;
              azimuth_begin = 0;
              azimuth_end = 0;
              elevation_begin = 0;
              elevation_end = 0;
            };
            recognised_detections_capability = capability;
            recognised_detections_status = 0;
            num_detections = num_detections;
          };
          detections_storage = detections;
        },
      )
