-- ===== src/Builder/Array.antt =====
-- `PointCloudBuilder::build_detection_array`, and the messages of afi920_msgs that it fills.
pub mod Agrees
use afi920_ros2_driver.Base.{
  ltb, if◌then◌else◌, get_or, set, replicate, ℕ, zero, suc, ◌+◌, List, [], ◌∷◌,
}
use afi920_ros2_driver.Node.Types.{PointCloudConfig}
use afi920_ros2_driver.Parsers.RdiTypes.{RdiDetection, rdi_max_classifications, RdiFrame}
use afi920_ros2_driver.Builder.Floats.{Maths}
use afi920_ros2_driver.Builder.{cartesian, passes_filter, RdiDetection, PointCloudConfig, RdiFrame}

pub record Detection : Type 0 where
  pub detection_id : ℕ
  pub object_id_reference : ℕ
  pub existence_probability : ℕ
  pub timestamp_difference : ℕ
  pub radial_distance : ℕ
  pub azimuth : ℕ
  pub elevation : ℕ
  pub radial_distance_error : ℕ
  pub azimuth_error : ℕ
  pub elevation_error : ℕ
  pub x : ℕ
  pub y : ℕ
  pub z : ℕ
  pub radial_velocity : ℕ
  pub radial_velocity_error : ℕ
  pub rcs : ℕ
  pub rcs_error : ℕ
  pub snr : ℕ
  pub snr_error : ℕ
  pub multi_target_probability : ℕ
  pub ambiguity_grouping_id : ℕ
  pub detection_ambiguity_probability : ℕ
  pub free_space_probability : ℕ
  pub num_classifications : ℕ
  pub classification_type : List ℕ
  pub classification_confidence : List ℕ
  pub debug_power : ℕ
  pub debug_azimuth_method : ℕ
  pub debug_elevation_method : ℕ
  pub debug_quality_distance : ℕ
  pub debug_quality_azimuth : ℕ
  pub debug_quality_elevation : ℕ
  pub debug_ambiguity_azimuth : ℕ
  pub debug_ambiguity_elevation : ℕ
  pub debug_quality_velocity : ℕ
  pub debug_ambiguity_model_velocity : ℕ
  pub debug_ambiguity_index_velocity : ℕ
  pub sensor_id : ℕ

pub record DetectionArray : Type 0 where
  pub stamp : ℕ
  pub frame_id : List ℕ
  pub sensor_id : ℕ
  pub message_counter : ℕ
  pub timestamp_measurement_ns : ℕ
  pub data_qualifier : ℕ
  pub velocity_ambiguity_begin : ℕ
  pub velocity_ambiguity_end : ℕ
  pub range_ambiguity_begin : ℕ
  pub range_ambiguity_end : ℕ
  pub azimuth_ambiguity_begin : ℕ
  pub azimuth_ambiguity_end : ℕ
  pub elevation_ambiguity_begin : ℕ
  pub elevation_ambiguity_end : ℕ
  pub max_detections : ℕ
  pub recognised_detections_status : ℕ
  pub detections : List Detection

-- The loop over the slots of an array, with the rounds that are left.
unfoldable pub copy_slots : ℕ → ℕ → List ℕ → List ℕ → List ℕ
copy_slots zero i dst src = dst
copy_slots (suc n) i dst src = copy_slots n (i + 1) (set dst i (get_or src i 0)) src

unfoldable pub detection_of : Maths → ℕ → RdiDetection → Detection
unfolding cartesian copy_slots
detection_of maths sensor_id det =
    let (dx, dy, dz) = cartesian maths det in
    let slots = replicate rdi_max_classifications 0 in
    record {
      detection_id = det.detection_id;
      object_id_reference = det.object_id_reference;
      existence_probability = det.existence_probability;
      timestamp_difference = det.timestamp_difference;
      radial_distance = det.position_radial_distance;
      azimuth = det.position_azimuth;
      elevation = det.position_elevation;
      radial_distance_error = det.position_radial_distance_error;
      azimuth_error = det.position_azimuth_error;
      elevation_error = det.position_elevation_error;
      x = dx;
      y = dy;
      z = dz;
      radial_velocity = det.relative_velocity_radial;
      radial_velocity_error = det.relative_velocity_radial_error;
      rcs = det.radar_cross_section;
      rcs_error = det.radar_cross_section_error;
      snr = det.signal_to_noise_ratio;
      snr_error = det.signal_to_noise_ratio_error;
      multi_target_probability = det.multi_target_probability;
      ambiguity_grouping_id = det.ambiguity_grouping_id;
      detection_ambiguity_probability = det.detection_ambiguity_probability;
      free_space_probability = det.free_space_probability;
      num_classifications = det.num_classifications;
      classification_type = copy_slots rdi_max_classifications 0 slots det.classification_type;
      classification_confidence =
          copy_slots rdi_max_classifications 0 slots det.classification_confidence;
      debug_power = det.debug_power;
      debug_azimuth_method = det.debug_azimuth_method;
      debug_elevation_method = det.debug_elevation_method;
      debug_quality_distance = det.debug_quality_distance;
      debug_quality_azimuth = det.debug_quality_azimuth;
      debug_quality_elevation = det.debug_quality_elevation;
      debug_ambiguity_azimuth = det.debug_ambiguity_azimuth;
      debug_ambiguity_elevation = det.debug_ambiguity_elevation;
      debug_quality_velocity = det.debug_quality_velocity;
      debug_ambiguity_model_velocity = det.debug_ambiguity_model_velocity;
      debug_ambiguity_index_velocity = det.debug_ambiguity_index_velocity;
      sensor_id = sensor_id;
    }

-- The loop from the place `i` on; what it appends, in order.
unfoldable pub entries_from :
    Maths → PointCloudConfig → ℕ → ℕ → ℕ → List RdiDetection → List Detection
unfolding passes_filter detection_of
entries_from maths c sensor_id num_det i [] = []
entries_from maths c sensor_id num_det i (det ∷ detections) =
    let rest = entries_from maths c sensor_id num_det (i + 1) detections in
    if ltb i num_det
    then (if passes_filter c det then detection_of maths sensor_id det ∷ rest else rest)
    else []

-- `timestamp_measurement_ns` is left to the caller, and keeps its default.
unfoldable pub build_detection_array : Maths → PointCloudConfig → RdiFrame → ℕ → DetectionArray
unfolding entries_from
build_detection_array maths c frame stamp =
    let msg = frame.message in
    record {
      stamp = stamp;
      frame_id = c.frame_id;
      sensor_id = msg.header.sensor_id;
      message_counter = msg.header.message_counter;
      timestamp_measurement_ns = 0;
      data_qualifier = msg.header.data_qualifier;
      velocity_ambiguity_begin = msg.ambiguity_domain.radial_velocity_begin;
      velocity_ambiguity_end = msg.ambiguity_domain.radial_velocity_end;
      range_ambiguity_begin = msg.ambiguity_domain.range_begin;
      range_ambiguity_end = msg.ambiguity_domain.range_end;
      azimuth_ambiguity_begin = msg.ambiguity_domain.azimuth_begin;
      azimuth_ambiguity_end = msg.ambiguity_domain.azimuth_end;
      elevation_ambiguity_begin = msg.ambiguity_domain.elevation_begin;
      elevation_ambiguity_end = msg.ambiguity_domain.elevation_end;
      max_detections = msg.recognised_detections_capability;
      recognised_detections_status = msg.recognised_detections_status;
      detections =
          entries_from maths c msg.header.sensor_id msg.num_detections 0 frame.detections_storage;
    }
