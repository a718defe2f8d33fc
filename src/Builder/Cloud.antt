-- ===== src/Builder/Cloud.antt =====
-- The part of `sensor_msgs` that the builder calls, which is not in this repository: a cloud has
-- fields, a width, and for every field and point a `float` by its bits.
use afi920_ros2_driver.Base.{
  ◌==◌, if◌then◌else◌, ℕ, ◌<◌, ◌≡◌, refl, ◌≢◌, ◌⊎◌, Bool, false, ◌&&◌, ◌||◌, List, [], ◌∷◌, arith,
}

-- The names of the fields.
pub data PointField : Type 0 where
  field_x : PointField
  field_y : PointField
  field_z : PointField
  field_radial_distance : PointField
  field_azimuth_angle : PointField
  field_elevation_angle : PointField
  field_radial_velocity : PointField
  field_radar_cross_section : PointField
  field_signal_noise_ratio : PointField
  field_radial_distance_error : PointField
  field_azimuth_angle_error : PointField
  field_elevation_angle_error : PointField
  field_radial_velocity_error : PointField
  field_existence_probability : PointField
  field_multi_target_probability : PointField
  field_detection_id : PointField
  field_sensor_id : PointField
  field_intensity : PointField

abbrev pub index : PointField → ℕ
index field_x = 0
index field_y = 1
index field_z = 2
index field_radial_distance = 3
index field_azimuth_angle = 4
index field_elevation_angle = 5
index field_radial_velocity = 6
index field_radar_cross_section = 7
index field_signal_noise_ratio = 8
index field_radial_distance_error = 9
index field_azimuth_angle_error = 10
index field_elevation_angle_error = 11
index field_radial_velocity_error = 12
index field_existence_probability = 13
index field_multi_target_probability = 14
index field_detection_id = 15
index field_sensor_id = 16
index field_intensity = 17

-- `PointCloud2Modifier::setPointCloud2Fields` and `resize`; what an iterator of a field writes at
-- its place, counted in points; and what a subscriber reads there.
pub record PointCloud2 {ℓ} (P : Type ℓ) : Type ℓ where
  pub empty : P
  pub set_fields : P → List PointField → P
  pub set_size : P → ℕ → P
  pub has_field : P → PointField → Bool
  pub width : P → ℕ
  pub write : P → PointField → ℕ → ℕ → P
  pub read : P → PointField → ℕ → ℕ

abbrev pub is_among : PointField → List PointField → Bool
is_among f [] = false
is_among f (g ∷ gs) = index f == index g || is_among f gs

abbrev pub IsApart : PointField → ℕ → PointField → ℕ → Type 0
IsApart f k g j = (index f ≢ index g) ⊎ (k ≢ j)

pub record IsPointCloud2 {ℓ} (P : Type ℓ) ⦃lib : PointCloud2 P⦄ : Type ℓ where
  pub has_field-set_fields :
      (p : P) (fs : List PointField) (f : PointField)
      → lib.has_field (lib.set_fields p fs) f ≡ is_among f fs
  pub has_field-set_size :
      (p : P) (n : ℕ) (f : PointField) → lib.has_field (lib.set_size p n) f ≡ lib.has_field p f
  pub has_field-write :
      (p : P) (f g : PointField) (k v : ℕ) → lib.has_field (lib.write p f k v) g ≡ lib.has_field p g
  pub width-set_size : (p : P) (n : ℕ) → lib.width (lib.set_size p n) ≡ n
  pub width-write : (p : P) (f : PointField) (k v : ℕ) → lib.width (lib.write p f k v) ≡ lib.width p
  pub read-write :
      (p : P) (f g : PointField) (k v : ℕ)
      → index f ≡ index g
      → k < lib.width p
      → lib.read (lib.write p f k v) g k ≡ v
  pub read-write_apart :
      (p : P) (f g : PointField) (k j v : ℕ)
      → IsApart f k g j
      → lib.read (lib.write p f k v) g j ≡ lib.read p g j

-- The laws can be met: a cloud as a table.
pub record Table : Type 0 where
  pub fields : List PointField
  pub points : ℕ
  pub cells : ℕ → ℕ → ℕ

instance abbrev pub table_cloud : PointCloud2 Table
table_cloud = record {
  empty = record { fields = []; points = 0; cells = λ f k. 0 };
  set_fields = λ p fs. record p { fields = fs };
  set_size = λ p n. record p { points = n };
  has_field = λ p f. is_among f p.fields;
  width = λ p. p.points;
  write = λ p f k v. record p { cells = λ g j. if index f == g && k == j then v else p.cells g j };
  read = λ p f k. p.cells (index f) k;
}

pub Table-IsPointCloud2 : IsPointCloud2 Table
Table-IsPointCloud2 = record {
  has_field-set_fields = λ p fs f. refl;
  has_field-set_size = λ p n f. refl;
  has_field-write = λ p f g k v. refl;
  width-set_size = λ p n. refl;
  width-write = λ p f k v. refl;
  read-write = λ p f g k v e h. here (index f) (index g) k v (p.cells (index g) k) e;
  read-write_apart = λ p f g k j v h. there (index f) (index g) k j v (p.cells (index g) j) h;
}
  where
    here : (f g k v w : ℕ) → f ≡ g → (if f == g && k == k then v else w) ≡ v
    here f g k v w e = ground arith

    there : (f g k j v w : ℕ) → (f ≢ g) ⊎ (k ≢ j) → (if f == g && k == j then v else w) ≡ w
    there f g k j v w h = ground arith
