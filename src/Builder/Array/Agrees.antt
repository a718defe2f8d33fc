-- ===== src/Builder/Array/Agrees.antt =====
-- The array of detections, and how it goes with the cloud.
use afi920_ros2_driver.Base.{
  if◌then◌else◌, lt→ltb, le→ltb, length, replicate, length-map, ok, ℕ, suc, ◌+◌, ◌-◌, ◌≡◌, refl,
  sym, ap, subst, ◌∙◌, Bool, true, false, List, [], ◌∷◌, map, arith,
}
use afi920_ros2_driver.Builder.Built.{build-IsCloudOf}
use afi920_ros2_driver.Builder.Points.{field_value, take_nil, published}
use afi920_ros2_driver.Builder.Fill.{from, Holds, from-published, from-Past}
use afi920_ros2_driver.Parsers.RdiTypes.{RdiDetection, RdiFrame}
use afi920_ros2_driver.Builder.{cartesian, RdiFrame, PointCloud2Message, passes_filter, build}
use afi920_ros2_driver.Node.Types.{PointCloudConfig}
use afi920_ros2_driver.Builder.Floats.{Maths, float_of}
use afi920_ros2_driver.Builder.Array.{
  build_detection_array, copy_slots, Detection, detection_of, entries_from, PointCloudConfig,
  cartesian, RdiDetection,
}
use native.Mathlib.Decide.{dec_lt}
use afi920_ros2_driver.Builder.Cloud.{
  PointField, PointCloud2, IsPointCloud2, field_x, field_y, field_z, field_radial_distance,
  field_azimuth_angle, field_elevation_angle, field_radial_velocity, field_radar_cross_section,
  field_signal_noise_ratio, field_radial_distance_error, field_azimuth_angle_error,
  field_elevation_angle_error, field_radial_velocity_error, field_existence_probability,
  field_multi_target_probability, field_detection_id, field_sensor_id, field_intensity,
}

entries_from-from :
    (maths : Maths) (c : PointCloudConfig) (sensor_id n i : ℕ) (ds : List RdiDetection)
    → entries_from maths c sensor_id n i ds ≡ map (detection_of maths sensor_id) (from c n i ds)
unfolding entries_from
entries_from-from maths c sensor_id n i [] = rw (take_nil (n - i)) refl
entries_from-from maths c sensor_id n i (det ∷ ds) = elim (dec_lt i n) [
  | yes l ↦
      let e : n - i ≡ suc (n - (i + 1)) = omega arith in
      rw (e, lt→ltb i n l, entries_from-from maths c sensor_id n (i + 1) ds)
        (one (passes_filter c det) (from c n (i + 1) ds))
  | no l ↦ rw (from-Past c n i (det ∷ ds) (omega arith), le→ltb i n (omega arith)) refl
]
  where
    entry : RdiDetection → Detection
    entry = detection_of maths sensor_id

    one :
        (b : Bool) (rest : List RdiDetection)
        → (if b then entry det ∷ map entry rest else map entry rest)
          ≡ map entry (if b then det ∷ rest else rest)
    one true rest = refl
    one false rest = refl

-- Whatever frame comes, the array has one entry for each detection among the announced ones that
-- passes the filter, in their order.
pub build_detection_array-published :
    (maths : Maths) (c : PointCloudConfig) (frame : RdiFrame) (stamp : ℕ)
    → (build_detection_array maths c frame stamp).detections
      ≡ map (detection_of maths frame.message.header.sensor_id) (published c frame)
unfolding build_detection_array
build_detection_array-published maths c frame stamp =
    entries_from-from maths c frame.message.header.sensor_id frame.message.num_detections 0
      frame.detections_storage
    ∙ ap (map (detection_of maths frame.message.header.sensor_id)) (from-published c frame)

-- The classifications are kept whole.
pub copy_slots-all :
    (a b c d e f g h : ℕ)
    → copy_slots 8 0 (replicate 8 0) (a ∷ b ∷ c ∷ d ∷ e ∷ f ∷ g ∷ h ∷ [])
      ≡ a ∷ b ∷ c ∷ d ∷ e ∷ f ∷ g ∷ h ∷ []
unfolding copy_slots
copy_slots-all a b c d e f g h = refl

-- What an entry says of the field of a point.
abbrev pub entry_field : Detection → PointField → ℕ
entry_field d field_x = d.x
entry_field d field_y = d.y
entry_field d field_z = d.z
entry_field d field_radial_distance = d.radial_distance
entry_field d field_azimuth_angle = d.azimuth
entry_field d field_elevation_angle = d.elevation
entry_field d field_radial_velocity = d.radial_velocity
entry_field d field_radar_cross_section = d.rcs
entry_field d field_signal_noise_ratio = d.snr
entry_field d field_radial_distance_error = d.radial_distance_error
entry_field d field_azimuth_angle_error = d.azimuth_error
entry_field d field_elevation_angle_error = d.elevation_error
entry_field d field_radial_velocity_error = d.radial_velocity_error
entry_field d field_existence_probability = float_of d.existence_probability
entry_field d field_multi_target_probability = float_of d.multi_target_probability
entry_field d field_detection_id = float_of d.detection_id
entry_field d field_sensor_id = float_of d.sensor_id
entry_field d field_intensity = d.rcs

entry_field-detection_of :
    (maths : Maths) (sensor_id : ℕ) (det : RdiDetection) (f : PointField)
    → field_value maths sensor_id det f ≡ entry_field (detection_of maths sensor_id det) f
unfolding detection_of cartesian
entry_field-detection_of maths sensor_id det field_x = refl
entry_field-detection_of maths sensor_id det field_y = refl
entry_field-detection_of maths sensor_id det field_z = refl
entry_field-detection_of maths sensor_id det field_radial_distance = refl
entry_field-detection_of maths sensor_id det field_azimuth_angle = refl
entry_field-detection_of maths sensor_id det field_elevation_angle = refl
entry_field-detection_of maths sensor_id det field_radial_velocity = refl
entry_field-detection_of maths sensor_id det field_radar_cross_section = refl
entry_field-detection_of maths sensor_id det field_signal_noise_ratio = refl
entry_field-detection_of maths sensor_id det field_radial_distance_error = refl
entry_field-detection_of maths sensor_id det field_azimuth_angle_error = refl
entry_field-detection_of maths sensor_id det field_elevation_angle_error = refl
entry_field-detection_of maths sensor_id det field_radial_velocity_error = refl
entry_field-detection_of maths sensor_id det field_existence_probability = refl
entry_field-detection_of maths sensor_id det field_multi_target_probability = refl
entry_field-detection_of maths sensor_id det field_detection_id = refl
entry_field-detection_of maths sensor_id det field_sensor_id = refl
entry_field-detection_of maths sensor_id det field_intensity = refl

module _ {ℓ} {P : Type ℓ} ⦃lib : PointCloud2 P⦄ where
  -- From the point `k` on, the cloud has one point for each of the entries, with the same values.
  abbrev pub CloudAgrees : P → ℕ → List Detection → Type 0
  CloudAgrees q k [] = Unit
  CloudAgrees q k (d ∷ ds) =
      ((f : PointField) → lib.read q f k ≡ entry_field d f) × CloudAgrees q (k + 1) ds

  Holds-CloudAgrees :
      (maths : Maths) (sensor_id : ℕ) (q : P) (k : ℕ) (ds : List RdiDetection)
      → Holds maths sensor_id q k ds
      → CloudAgrees q k (map (detection_of maths sensor_id) ds)
  Holds-CloudAgrees maths sensor_id q k [] h = tt
  Holds-CloudAgrees maths sensor_id q k (det ∷ ds) h = (
    λ f. h.0 f ∙ entry_field-detection_of maths sensor_id det f,
    Holds-CloudAgrees maths sensor_id q (k + 1) ds h.1,
  )

module _ {ℓ} {P : Type ℓ} ⦃lib : PointCloud2 P⦄ ⦃laws : IsPointCloud2 P⦄ where
  -- The two messages that are built of one frame agree: the cloud has as many points as the array
  -- has entries, and each field of the point `k` has the value that entry `k` has for it.
  pub build-CloudAgrees :
      (maths : Maths) (c : PointCloudConfig) (frame : RdiFrame) (stamp : ℕ)
      → (m : PointCloud2Message P) × (build maths c frame stamp ≡ ok m)
        × (m.stamp ≡ (build_detection_array maths c frame stamp).stamp)
        × (m.frame_id ≡ (build_detection_array maths c frame stamp).frame_id)
        × (lib.width m.points ≡ length (build_detection_array maths c frame stamp).detections)
        × CloudAgrees m.points 0 (build_detection_array maths c frame stamp).detections
  unfolding build_detection_array
  build-CloudAgrees maths c frame stamp =
      let (points, e, v) = build-IsCloudOf maths c frame stamp in
      let sensor_id = frame.message.header.sensor_id in
      let listed = build_detection_array-published maths c frame stamp in
      (
        _,
        e,
        refl,
        refl,
        v.width
            ∙ sym
                (ap length listed ∙ length-map (detection_of maths sensor_id) (published c frame)),
        subst (CloudAgrees points 0) (sym listed)
            (Holds-CloudAgrees maths sensor_id points 0 (published c frame) v.points),
      )
