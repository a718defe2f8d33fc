-- ===== src/Parsers/RdiTypes.antt =====
-- The structures of include/afi920_driver/interface/AFI920/bts_iso23150_rdi.h, and `RdiFrame` of
-- include/afi920_driver/radar_types.hpp. A `float` is its bit pattern, so `0.0f` is 0. The pointer
-- `message.detections` always points at `detections_storage`, and is left out.
use afi920_ros2_driver.Base.{replicate, ℕ, List, []}
use afi920_ros2_driver.Parsers.Iso.{InterfaceHeader, zero_interface_header}

abbrev pub rdi_header_size : ℕ
rdi_header_size = 36

abbrev pub rdi_detection_size : ℕ
rdi_detection_size = 51

abbrev pub rdi_max_detections : ℕ
rdi_max_detections = 4096

abbrev pub rdi_max_classifications : ℕ
rdi_max_classifications = 8

pub record RdiDetection : Type 0 where
  pub existence_probability : ℕ
  pub detection_id : ℕ
  pub object_id_reference : ℕ
  pub timestamp_difference : ℕ
  pub radar_cross_section : ℕ
  pub radar_cross_section_error : ℕ
  pub signal_to_noise_ratio : ℕ
  pub signal_to_noise_ratio_error : ℕ
  pub multi_target_probability : ℕ
  pub ambiguity_grouping_id : ℕ
  pub detection_ambiguity_probability : ℕ
  pub free_space_probability : ℕ
  pub num_classifications : ℕ
  pub classification_type : List ℕ
  pub classification_confidence : List ℕ
  pub position_radial_distance : ℕ
  pub position_azimuth : ℕ
  pub position_elevation : ℕ
  pub position_radial_distance_error : ℕ
  pub position_azimuth_error : ℕ
  pub position_elevation_error : ℕ
  pub relative_velocity_radial : ℕ
  pub relative_velocity_radial_error : ℕ
  pub debug_power : ℕ
  pub debug_azimuth_method : ℕ
  pub debug_elevation_method : ℕ
  pub debug_quality_distance : ℕ
  pub debug_quality_azimuth : ℕ
  pub debug_quality_elevation : ℕ
  pub debug_ambiguity_azimuth : ℕ
  pub debug_ambiguity_elevation : ℕ
  pub debug_quality_velocity : ℕ
  pub debug_ambiguity_model_velocity : ℕ
  pub debug_ambiguity_index_velocity : ℕ

-- `memset(det, 0, sizeof(*det))`
abbrev pub rdi_detection_init : RdiDetection
rdi_detection_init = record {
  existence_probability = 0;
  detection_id = 0;
  object_id_reference = 0;
  timestamp_difference = 0;
  radar_cross_section = 0;
  radar_cross_section_error = 0;
  signal_to_noise_ratio = 0;
  signal_to_noise_ratio_error = 0;
  multi_target_probability = 0;
  ambiguity_grouping_id = 0;
  detection_ambiguity_probability = 0;
  free_space_probability = 0;
  num_classifications = 0;
  classification_type = replicate rdi_max_classifications 0;
  classification_confidence = replicate rdi_max_classifications 0;
  position_radial_distance = 0;
  position_azimuth = 0;
  position_elevation = 0;
  position_radial_distance_error = 0;
  position_azimuth_error = 0;
  position_elevation_error = 0;
  relative_velocity_radial = 0;
  relative_velocity_radial_error = 0;
  debug_power = 0;
  debug_azimuth_method = 0;
  debug_elevation_method = 0;
  debug_quality_distance = 0;
  debug_quality_azimuth = 0;
  debug_quality_elevation = 0;
  debug_ambiguity_azimuth = 0;
  debug_ambiguity_elevation = 0;
  debug_quality_velocity = 0;
  debug_ambiguity_model_velocity = 0;
  debug_ambiguity_index_velocity = 0;
}

pub record AmbiguityDomain : Type 0 where
  pub radial_velocity_begin : ℕ
  pub radial_velocity_end : ℕ
  pub range_begin : ℕ
  pub range_end : ℕ
  pub azimuth_begin : ℕ
  pub azimuth_end : ℕ
  pub elevation_begin : ℕ
  pub elevation_end : ℕ

pub record RdiMessage : Type 0 where
  pub header : InterfaceHeader
  pub ambiguity_domain : AmbiguityDomain
  pub recognised_detections_capability : ℕ
  pub recognised_detections_status : ℕ
  pub num_detections : ℕ

pub record RdiFrame : Type 0 where
  pub message : RdiMessage
  pub recv_timestamp_ns : ℕ
  pub frame_seq : ℕ
  pub detections_storage : List RdiDetection

-- `RdiFrame frame{}`
abbrev pub rdi_frame_init : RdiFrame
rdi_frame_init = record {
  message = record {
    header = zero_interface_header;
    ambiguity_domain = record {
      radial_velocity_begin = 0;
      radial_velocity_end = 0;
      range_begin = 0;
      range_end = 0;
      azimuth_begin = 0;
      azimuth_end = 0;
      elevation_begin = 0;
      elevation_end = 0;
    };
    recognised_detections_capability = 0;
    recognised_detections_status = 0;
    num_detections = 0;
  };
  recv_timestamp_ns = 0;
  frame_seq = 0;
  detections_storage = [];
}
