-- ===== src/Builder.antt =====
-- src/pointcloud_builder.cpp: what is published of a frame of detections. A `float` and a `double`
-- are their bits; the messages are built in the modules below.
pub mod Floats
pub mod Cloud
pub mod Points
pub mod Fill
pub mod Built
pub mod Array
pub mod Range
pub mod Samples
mod Runs
use afi920_ros2_driver.Base.{
  ltb, ◌==◌, if◌then◌else◌, Access, ok, fault, ◌>>=◌, ℕ, suc, ◌+◌, Bool, true, false, not, ◌&&◌,
  ◌||◌, List, [], ◌∷◌,
}
use afi920_ros2_driver.Parsers.RdiTypes.{RdiDetection, RdiFrame}
use afi920_ros2_driver.Builder.Floats.{Maths, double_of_float, less, float_of, double_of}
use afi920_ros2_driver.Node.Types.{PointCloudConfig}
use afi920_ros2_driver.Builder.Cloud.{
  PointField, PointCloud2, field_x, field_y, field_z, field_radial_distance, field_azimuth_angle,
  field_elevation_angle, field_radial_velocity, field_radial_velocity_error,
  field_radar_cross_section, field_signal_noise_ratio, field_radial_distance_error,
  field_azimuth_angle_error, field_elevation_angle_error, field_radial_velocity_error,
  field_existence_probability, field_multi_target_probability, field_detection_id, field_sensor_id,
  field_intensity,
}

abbrev pub all_fields : List PointField
all_fields =
    field_x ∷ field_y ∷ field_z ∷ field_radial_distance ∷ field_azimuth_angle
    ∷ field_elevation_angle ∷ field_radial_velocity ∷ field_radar_cross_section
    ∷ field_signal_noise_ratio ∷ field_radial_distance_error ∷ field_azimuth_angle_error
    ∷ field_elevation_angle_error ∷ field_radial_velocity_error ∷ field_existence_probability
    ∷ field_multi_target_probability ∷ field_detection_id ∷ field_sensor_id ∷ field_intensity ∷ []

-- `PointCloudBuilder::update_config`
unfoldable pub update_config : PointCloudConfig → PointCloudConfig → PointCloudConfig
update_config old config = config

unfoldable pub passes_filter : PointCloudConfig → RdiDetection → Bool
passes_filter c det =
    let range = double_of_float det.position_radial_distance in
    if less range c.min_range || less c.max_range range
    then false
    else (if less (double_of_float det.signal_to_noise_ratio) c.min_snr
        then false
        else not (less (double_of det.existence_probability) c.min_existence_probability))

-- Spherical to Cartesian.
unfoldable pub cartesian : Maths → RdiDetection → ℕ × ℕ × ℕ
cartesian maths det =
    let r = det.position_radial_distance in
    let az = det.position_azimuth in
    let el = det.position_elevation in
    let cos_el = maths.cos el in
    (
      maths.times (maths.times r cos_el) (maths.cos az),
      maths.times (maths.times r cos_el) (maths.sin az),
      maths.times r (maths.sin el),
    )

-- The message; `points` is its part that only the library of clouds touches.
pub record PointCloud2Message {ℓ} (P : Type ℓ) : Type ℓ where
  pub stamp : ℕ
  pub frame_id : List ℕ
  pub height : ℕ
  pub is_dense : Bool
  pub points : P

abbrev pub is_empty : List RdiDetection → Bool
is_empty [] = true
is_empty (det ∷ detections) = false

-- The first loop, from the place `i` on; `i` is below `num_det`, so its 16 bits do not wrap.
unfoldable pub count_valid : PointCloudConfig → ℕ → ℕ → List RdiDetection → ℕ
unfolding passes_filter
count_valid c num_det i [] = 0
count_valid c num_det i (det ∷ detections) =
    let rest = count_valid c num_det (i + 1) detections in
    if ltb i num_det then (if passes_filter c det then suc rest else rest) else 0

-- What is written of one detection, in order.
unfoldable pub point_values : Maths → ℕ → RdiDetection → List (PointField × ℕ)
unfolding cartesian
point_values maths sensor_id_f det =
    let (px, py, pz) = cartesian maths det in
    (field_x, px)
    ∷ (field_y, py)
    ∷ (field_z, pz)
    ∷ (field_radial_distance, det.position_radial_distance)
    ∷ (field_azimuth_angle, det.position_azimuth)
    ∷ (field_elevation_angle, det.position_elevation)
    ∷ (field_radial_velocity, det.relative_velocity_radial)
    ∷ (field_radar_cross_section, det.radar_cross_section)
    ∷ (field_signal_noise_ratio, det.signal_to_noise_ratio)
    ∷ (field_radial_distance_error, det.position_radial_distance_error)
    ∷ (field_azimuth_angle_error, det.position_azimuth_error)
    ∷ (field_elevation_angle_error, det.position_elevation_error)
    ∷ (field_radial_velocity_error, det.relative_velocity_radial_error)
    ∷ (field_existence_probability, float_of det.existence_probability)
    ∷ (field_multi_target_probability, float_of det.multi_target_probability)
    ∷ (field_detection_id, float_of det.detection_id)
    ∷ (field_sensor_id, sensor_id_f)
    ∷ (field_intensity, det.radar_cross_section)
    ∷ []

module _ {ℓ} {P : Type ℓ} ⦃lib : PointCloud2 P⦄ where
  -- The iterators stand at the point `k`; a write behind the last point is a fault.
  unfoldable pub write_fields : P → ℕ → List (PointField × ℕ) → Access P
  write_fields p k [] = ok p
  write_fields p k ((f, v) ∷ values) =
      let rest = write_fields (lib.write p f k v) k values in
      if ltb k (lib.width p) then rest else fault

  unfoldable pub has_fields : P → List PointField → Bool
  has_fields p [] = true
  has_fields p (f ∷ fs) = lib.has_field p f && has_fields p fs

module _ {ℓ} {P : Type ℓ} ⦃lib : PointCloud2 P⦄ (maths : Maths) (c : PointCloudConfig) where
  -- One round of the second loop: the cloud, and where the iterators stand.
  unfoldable pub fill_point : ℕ → P → ℕ → RdiDetection → Access (P × ℕ)
  unfolding passes_filter point_values write_fields
  fill_point sensor_id_f p k det =
      if not (passes_filter c det)
      then ok (p, k)
      else do written ← write_fields p k (point_values maths sensor_id_f det); ok (written, k + 1)

  unfoldable pub fill : ℕ → ℕ → P → ℕ → ℕ → List RdiDetection → Access P
  unfolding fill_point
  fill sensor_id_f num_det p k i [] = ok p
  fill sensor_id_f num_det p k i (det ∷ detections) = if not (ltb i num_det) then ok p else do
    (next, at) ← fill_point sensor_id_f p k det
    fill sensor_id_f num_det next at (i + 1) detections

  -- An iterator of a field that the cloud does not have throws an exception, here a fault too.
  unfoldable pub build_points : RdiFrame → Access P
  unfolding count_valid has_fields fill
  build_points frame =
      let detections = frame.detections_storage in
      let num_det = frame.message.num_detections in
      let points = lib.set_fields lib.empty all_fields in
      let valid_count = count_valid c num_det 0 detections in
      let resized = lib.set_size points valid_count in
      if num_det == 0 || is_empty detections
      then ok (lib.set_size points 0)
      else (if valid_count == 0
          then ok (lib.set_size points 0)
          else (if not (has_fields resized all_fields)
              then fault
              else fill (float_of frame.message.header.sensor_id) num_det resized 0 0 detections))

  unfoldable pub build : RdiFrame → ℕ → Access (PointCloud2Message P)
  unfolding build_points
  build frame stamp = do
    points ← build_points frame
    ok (record {
      stamp = stamp;
      frame_id = c.frame_id;
      height = 1;
      is_dense = true;
      points = points;
    })
