-- ===== src/Parsers/Rdi/Layout.antt =====
-- How a sensor lays out the detections of an RDI payload, and that each is read back.
use afi920_ros2_driver.Base.{
  length, drop, All, drop-drop, ℕ, ◌+◌, ◌*◌, ◌^◌, ◌<◌, ◌≡◌, refl, ap, ◌∙◌, List, [], ◌∷◌, ◌++◌, map,
  append_assoc, arith,
}
use afi920_ros2_driver.Wire.{pack_le16, pack_le32}
use afi920_ros2_driver.Wire.RoundTrip.{join_le16_bytes, join_le32_bytes}
use afi920_ros2_driver.Parsers.RdiTypes.{rdi_detection_size, RdiDetection, rdi_detection_init}
use afi920_ros2_driver.Parsers.Rdi.Total.{detection_at, detection_offset, detections_at}

-- The fields of a detection that travel on the wire.
pub record WireDetection : Type 0 where
  pub existence_probability : ℕ
  pub detection_id : ℕ
  pub object_id_reference : ℕ
  pub timestamp_difference : ℕ
  pub radar_cross_section : ℕ
  pub signal_to_noise_ratio : ℕ
  pub ambiguity_grouping_id : ℕ
  pub radial_distance : ℕ
  pub azimuth : ℕ
  pub elevation : ℕ
  pub radial_distance_error : ℕ
  pub azimuth_error : ℕ
  pub elevation_error : ℕ
  pub velocity : ℕ
  pub velocity_error : ℕ

pub record IsWireDetection (w : WireDetection) : Type 0 where
  pub id_fits : w.detection_id < 2 ^ 16
  pub object_fits : w.object_id_reference < 2 ^ 16
  pub difference_fits : w.timestamp_difference < 2 ^ 32
  pub rcs_fits : w.radar_cross_section < 2 ^ 32
  pub snr_fits : w.signal_to_noise_ratio < 2 ^ 32
  pub grouping_fits : w.ambiguity_grouping_id < 2 ^ 16
  pub distance_fits : w.radial_distance < 2 ^ 32
  pub azimuth_fits : w.azimuth < 2 ^ 32
  pub elevation_fits : w.elevation < 2 ^ 32
  pub distance_error_fits : w.radial_distance_error < 2 ^ 32
  pub azimuth_error_fits : w.azimuth_error < 2 ^ 32
  pub elevation_error_fits : w.elevation_error < 2 ^ 32
  pub velocity_fits : w.velocity < 2 ^ 32
  pub velocity_error_fits : w.velocity_error < 2 ^ 32

-- The structure for it: what does not travel is zero.
abbrev pub from_wire : WireDetection → RdiDetection
from_wire w = record rdi_detection_init {
  existence_probability = w.existence_probability;
  detection_id = w.detection_id;
  object_id_reference = w.object_id_reference;
  timestamp_difference = w.timestamp_difference;
  radar_cross_section = w.radar_cross_section;
  signal_to_noise_ratio = w.signal_to_noise_ratio;
  ambiguity_grouping_id = w.ambiguity_grouping_id;
  position_radial_distance = w.radial_distance;
  position_azimuth = w.azimuth;
  position_elevation = w.elevation;
  position_radial_distance_error = w.radial_distance_error;
  position_azimuth_error = w.azimuth_error;
  position_elevation_error = w.elevation_error;
  relative_velocity_radial = w.velocity;
  relative_velocity_radial_error = w.velocity_error;
}

unfoldable pub serialize_detection : WireDetection → List ℕ
serialize_detection w =
    w.existence_probability ∷ []
    ++ pack_le16 w.detection_id
    ++ pack_le16 w.object_id_reference
    ++ pack_le32 w.timestamp_difference
    ++ pack_le32 w.radar_cross_section
    ++ pack_le32 w.signal_to_noise_ratio
    ++ pack_le16 w.ambiguity_grouping_id
    ++ pack_le32 w.radial_distance
    ++ pack_le32 w.azimuth
    ++ pack_le32 w.elevation
    ++ pack_le32 w.radial_distance_error
    ++ pack_le32 w.azimuth_error
    ++ pack_le32 w.elevation_error
    ++ pack_le32 w.velocity
    ++ pack_le32 w.velocity_error

unfoldable pub serialize_detections : List WireDetection → List ℕ
serialize_detections [] = []
serialize_detections (w ∷ ws) = serialize_detection w ++ serialize_detections ws

detection_at-serialize :
    (w : WireDetection) (rest : List ℕ)
    → IsWireDetection w
    → detection_at (serialize_detection w ++ rest) ≡ from_wire w
unfolding serialize_detection pack_le16 pack_le32
detection_at-serialize w rest v = λ i. record rdi_detection_init {
  existence_probability = w.existence_probability;
  detection_id = join_le16_bytes w.detection_id v.id_fits i;
  object_id_reference = join_le16_bytes w.object_id_reference v.object_fits i;
  timestamp_difference = join_le32_bytes w.timestamp_difference v.difference_fits i;
  radar_cross_section = join_le32_bytes w.radar_cross_section v.rcs_fits i;
  signal_to_noise_ratio = join_le32_bytes w.signal_to_noise_ratio v.snr_fits i;
  ambiguity_grouping_id = join_le16_bytes w.ambiguity_grouping_id v.grouping_fits i;
  position_radial_distance = join_le32_bytes w.radial_distance v.distance_fits i;
  position_azimuth = join_le32_bytes w.azimuth v.azimuth_fits i;
  position_elevation = join_le32_bytes w.elevation v.elevation_fits i;
  position_radial_distance_error = join_le32_bytes w.radial_distance_error v.distance_error_fits i;
  position_azimuth_error = join_le32_bytes w.azimuth_error v.azimuth_error_fits i;
  position_elevation_error = join_le32_bytes w.elevation_error v.elevation_error_fits i;
  relative_velocity_radial = join_le32_bytes w.velocity v.velocity_fits i;
  relative_velocity_radial_error = join_le32_bytes w.velocity_error v.velocity_error_fits i;
}

drop-serialize :
    (w : WireDetection) (rest : List ℕ)
    → drop rdi_detection_size (serialize_detection w ++ rest) ≡ rest
unfolding serialize_detection pack_le16 pack_le32
drop-serialize w rest = refl

pub length-serialize_detections :
    (ws : List WireDetection) → length (serialize_detections ws) ≡ length ws * rdi_detection_size
unfolding serialize_detections serialize_detection pack_le16 pack_le32
length-serialize_detections [] = refl
length-serialize_detections (w ∷ ws) = omega (arith, length-serialize_detections ws)

pub detections_at-serialize :
    (payload : List ℕ) (i : ℕ) (ws : List WireDetection) (rest : List ℕ)
    → drop (detection_offset i) payload ≡ serialize_detections ws ++ rest
    → All IsWireDetection ws
    → detections_at payload i (length ws) ≡ map from_wire ws
unfolding serialize_detections
detections_at-serialize payload i [] rest e v = refl
detections_at-serialize payload i (w ∷ ws) rest e v = λ j.
    (ap detection_at here ∙ detection_at-serialize w _ v.0) j
    ∷ detections_at-serialize payload (i + 1) ws rest next v.1 j
  where
    here :
        drop (detection_offset i) payload
        ≡ serialize_detection w ++ (serialize_detections ws ++ rest)
    here = e ∙ append_assoc (serialize_detection w) (serialize_detections ws) rest

    offset : detection_offset (i + 1) ≡ detection_offset i + rdi_detection_size
    offset = omega arith

    next : drop (detection_offset (i + 1)) payload ≡ serialize_detections ws ++ rest
    next =
        ap (λ (k : ℕ). drop k payload) offset
        ∙ drop-drop (detection_offset i) rdi_detection_size payload
        ∙ ap (drop rdi_detection_size) here
        ∙ drop-serialize w (serialize_detections ws ++ rest)
