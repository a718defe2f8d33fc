-- ===== src/Builder/Points.antt =====
-- The cloud that is built holds the detections that pass the filter, in order, and nothing else.
use afi920_ros2_driver.Base.{
  ◌==◌, if◌then◌else◌, lt→ltb, le→ltb, ==_cases, length, take, filter, ok, ℕ, zero, suc, ◌+◌, ◌-◌,
  ◌<◌, ◌≡◌, refl, sym, ap, subst, ◌∙◌, ◌≢◌, inl, inr, Bool, true, false, List, [], ◌∷◌, arith,
}
use afi920_ros2_driver.Parsers.RdiTypes.{RdiFrame, RdiDetection}
use afi920_ros2_driver.Builder.Cloud.{
  PointField, PointCloud2, IsPointCloud2, index, field_x, field_y, field_z, field_radial_distance,
  field_azimuth_angle, field_elevation_angle, field_radial_velocity, field_radar_cross_section,
  field_signal_noise_ratio, field_radial_distance_error, field_azimuth_angle_error,
  field_elevation_angle_error, field_radial_velocity_error, field_existence_probability,
  field_multi_target_probability, field_detection_id, field_sensor_id, field_intensity, is_among,
}
use afi920_ros2_driver.Builder.{
  count_valid, point_values, RdiFrame, RdiDetection, cartesian, passes_filter, float_of,
  write_fields, all_fields,
}
use afi920_ros2_driver.Builder.Floats.{Maths, float_of}
use afi920_ros2_driver.Node.Types.{PointCloudConfig}
use native.Mathlib.Decide.{dec_lt}

-- The detections that count, and of them those that pass.
abbrev pub published : PointCloudConfig → RdiFrame → List RdiDetection
published c frame =
    filter (passes_filter c) (take frame.message.num_detections frame.detections_storage)

-- What a subscriber reads in a field of the point of a detection.
abbrev pub field_value : Maths → ℕ → RdiDetection → PointField → ℕ
field_value maths sensor_id det field_x =
    maths.times (maths.times det.position_radial_distance (maths.cos det.position_elevation))
      (maths.cos det.position_azimuth)
field_value maths sensor_id det field_y =
    maths.times (maths.times det.position_radial_distance (maths.cos det.position_elevation))
      (maths.sin det.position_azimuth)
field_value maths sensor_id det field_z =
    maths.times det.position_radial_distance (maths.sin det.position_elevation)
field_value maths sensor_id det field_radial_distance = det.position_radial_distance
field_value maths sensor_id det field_azimuth_angle = det.position_azimuth
field_value maths sensor_id det field_elevation_angle = det.position_elevation
field_value maths sensor_id det field_radial_velocity = det.relative_velocity_radial
field_value maths sensor_id det field_radar_cross_section = det.radar_cross_section
field_value maths sensor_id det field_signal_noise_ratio = det.signal_to_noise_ratio
field_value maths sensor_id det field_radial_distance_error = det.position_radial_distance_error
field_value maths sensor_id det field_azimuth_angle_error = det.position_azimuth_error
field_value maths sensor_id det field_elevation_angle_error = det.position_elevation_error
field_value maths sensor_id det field_radial_velocity_error = det.relative_velocity_radial_error
field_value maths sensor_id det field_existence_probability = float_of det.existence_probability
field_value maths sensor_id det field_multi_target_probability =
    float_of det.multi_target_probability
field_value maths sensor_id det field_detection_id = float_of det.detection_id
field_value maths sensor_id det field_sensor_id = float_of sensor_id
field_value maths sensor_id det field_intensity = det.radar_cross_section

pub set_up : (f : PointField) → is_among f all_fields ≡ true
set_up field_x = refl
set_up field_y = refl
set_up field_z = refl
set_up field_radial_distance = refl
set_up field_azimuth_angle = refl
set_up field_elevation_angle = refl
set_up field_radial_velocity = refl
set_up field_radar_cross_section = refl
set_up field_signal_noise_ratio = refl
set_up field_radial_distance_error = refl
set_up field_azimuth_angle_error = refl
set_up field_elevation_angle_error = refl
set_up field_radial_velocity_error = refl
set_up field_existence_probability = refl
set_up field_multi_target_probability = refl
set_up field_detection_id = refl
set_up field_sensor_id = refl
set_up field_intensity = refl

pub take_nil : (n : ℕ) → take {A = RdiDetection} n [] ≡ []
take_nil zero = refl
take_nil (suc n) = refl

pub count_valid-filter :
    (c : PointCloudConfig) (n i : ℕ) (ds : List RdiDetection)
    → count_valid c n i ds ≡ length (filter (passes_filter c) (take (n - i) ds))
unfolding count_valid
count_valid-filter c n i [] = rw (take_nil (n - i)) refl
count_valid-filter c n i (det ∷ ds) = elim (dec_lt i n) [
  | yes h ↦
      let e : n - i ≡ suc (n - (i + 1)) = omega arith in
      rw (lt→ltb i n h, e, count_valid-filter c n (i + 1) ds) (one (passes_filter c det) _)
  | no h ↦ let e : n - i ≡ 0 = omega arith in rw (le→ltb i n (omega arith), e)
]
  where
    one :
        (b : Bool) (rest : List RdiDetection)
        → (if b then suc (length rest) else length rest) ≡ length (if b then det ∷ rest else rest)
    one true rest = refl
    one false rest = refl

-- The value that a list of writes leaves in a field.
abbrev pub last_written : PointField → List (PointField × ℕ) → ℕ → ℕ
last_written f [] d = d
last_written f ((g, v) ∷ values) d = last_written f values (if index g == index f then v else d)

pub last_written-point_values :
    (maths : Maths) (sensor_id : ℕ) (det : RdiDetection) (f : PointField) (d : ℕ)
    → last_written f (point_values maths (float_of sensor_id) det) d
      ≡ field_value maths sensor_id det f
unfolding point_values cartesian
last_written-point_values maths sensor_id det field_x d = refl
last_written-point_values maths sensor_id det field_y d = refl
last_written-point_values maths sensor_id det field_z d = refl
last_written-point_values maths sensor_id det field_radial_distance d = refl
last_written-point_values maths sensor_id det field_azimuth_angle d = refl
last_written-point_values maths sensor_id det field_elevation_angle d = refl
last_written-point_values maths sensor_id det field_radial_velocity d = refl
last_written-point_values maths sensor_id det field_radar_cross_section d = refl
last_written-point_values maths sensor_id det field_signal_noise_ratio d = refl
last_written-point_values maths sensor_id det field_radial_distance_error d = refl
last_written-point_values maths sensor_id det field_azimuth_angle_error d = refl
last_written-point_values maths sensor_id det field_elevation_angle_error d = refl
last_written-point_values maths sensor_id det field_radial_velocity_error d = refl
last_written-point_values maths sensor_id det field_existence_probability d = refl
last_written-point_values maths sensor_id det field_multi_target_probability d = refl
last_written-point_values maths sensor_id det field_detection_id d = refl
last_written-point_values maths sensor_id det field_sensor_id d = refl
last_written-point_values maths sensor_id det field_intensity d = refl

module _ {ℓ} {P : Type ℓ} ⦃lib : PointCloud2 P⦄ ⦃laws : IsPointCloud2 P⦄ where
  -- `q` is `p` but for the point `k`, which has what was written.
  pub record Written (p : P) (k : ℕ) (values : List (PointField × ℕ)) (q : P) : Type ℓ where
    pub same_fields : (f : PointField) → lib.has_field q f ≡ lib.has_field p f
    pub same_width : lib.width q ≡ lib.width p
    pub others : (f : PointField) (j : ℕ) → k ≢ j → lib.read q f j ≡ lib.read p f j
    pub here : (f : PointField) → lib.read q f k ≡ last_written f values (lib.read p f k)

  write_one :
      (p : P) (k v : ℕ) (g f : PointField)
      → k < lib.width p
      → lib.read (lib.write p g k v) f k ≡ (if index g == index f then v else lib.read p f k)
  write_one p k v g f h = elim (==_cases (index g) (index f)) [
    | inl (b, e) ↦ rw b (laws.read-write p g f k v e h)
    | inr (b, n) ↦ rw b (laws.read-write_apart p g f k k v (inl n))
  ]

  pub write_fields-Written :
      (p : P) (k : ℕ) (values : List (PointField × ℕ))
      → k < lib.width p
      → (q : P) × (write_fields p k values ≡ ok q) × Written p k values q
  unfolding write_fields
  write_fields-Written p k [] h = (
    p,
    refl,
    record { same_fields = λ f. refl; same_width = refl; others = λ f j n. refl; here = λ f. refl },
  )
  write_fields-Written p k ((f, v) ∷ values) h =
      let next = lib.write p f k v in
      let (q, e, w) =
        write_fields-Written next k values
          (subst (λ n. k < n) (sym (laws.width-write p f k v)) h) in
      (
        q,
        rw (lt→ltb k (lib.width p) h) e,
        record {
          same_fields = λ g. w.same_fields g ∙ laws.has_field-write p f g k v;
          same_width = w.same_width ∙ laws.width-write p f k v;
          others = λ g j n. w.others g j n ∙ laws.read-write_apart p f g k j v (inr n);
          here = λ g. w.here g ∙ ap (λ (d : ℕ). last_written g values d) (write_one p k v f g h);
        },
      )
