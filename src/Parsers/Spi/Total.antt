-- ===== src/Parsers/Spi/Total.antt =====
-- The SPI parser reads only bytes of the payload, and what it reports fits its arrays.
use native.Mathlib.Decide.{dec_le}
use afi920_ros2_driver.Wire.{unpack_le_f32}
use afi920_ros2_driver.Parsers.SpiTypes.{
  SpiMessage, spi_message_init, spi_max_fov_segments, spi_ref_target_size, spi_object_type_size,
  spi_fov_segment_size, spi_sensor_pose_size, spi_max_object_types, spi_max_ref_targets, FovSegment,
  ReferenceTargetType, RecognisableObjectType, SensorPose,
}
use afi920_ros2_driver.Base.{
  lt→ltb, le→ltb, ℤ, length, drop, length-drop, Access, ok, byte_at-ok, Safe, Safe-bind, ℕ, ◌+◌,
  ◌≤◌, min, ◌≡◌, refl, Option, none, some, List, arith,
}
use afi920_ros2_driver.Wire.Total.{unpack_le_f32-ok, le32}
use afi920_ros2_driver.Parsers.Iso.Header.{parse_interface_header-ok}
use afi920_ros2_driver.Parsers.Section.{with_count-Safe}
use afi920_ros2_driver.Parsers.Elements.{parse_elements_size}
use afi920_ros2_driver.Parsers.Spi.{
  parse, SpiMessage, unpack_le_f32, read_ref_target, read_object_type, read_fov_segment,
  parse_sensor_pose, parse_reference_targets, parse_object_types, parse_fov_segments,
  spi_message_init, spi_max_fov_segments, spi_ref_target_size, spi_object_type_size,
  spi_fov_segment_size, spi_sensor_pose_size, spi_max_object_types, spi_max_ref_targets, FovSegment,
  spi_min_size, ReferenceTargetType, RecognisableObjectType, SensorPose,
}

-- The arrays have their sizes, and the counts stay within them.
pub record IsSpi (m : SpiMessage) : Type 0 where
  pub fov_size : length m.fov_segments ≡ spi_max_fov_segments
  pub fov_count : m.num_fov_segments ≤ spi_max_fov_segments
  pub objects_size : length m.recognisable_object_types ≡ spi_max_object_types
  pub objects_count : m.num_recognisable_object_types ≤ spi_max_object_types
  pub targets_size : length m.reference_target_types ≡ spi_max_ref_targets
  pub targets_count : m.num_reference_target_types ≤ spi_max_ref_targets

abbrev pub WellFilled : ℤ × SpiMessage → Type 0
WellFilled r = IsSpi r.1

abbrev Readable {ℓ} : {A : Type ℓ} → (List ℕ → Access A) → ℕ → Type 0
Readable read size = (q : List ℕ) → size ≤ length q → Safe (λ _. Unit {0}) (read q)

-- A float at the offset `k`.
pub float :
    (q : List ℕ) (k : ℕ) → k + 4 ≤ length q → unpack_le_f32 (drop k q) ≡ ok (le32 (drop k q))
float q k h = unpack_le_f32-ok (drop k q) (omega (arith, length-drop {0} k q))

read_ref_target-Readable : Readable read_ref_target spi_ref_target_size
unfolding read_ref_target
read_ref_target-Readable q h =
    rw
      (
        float q 0 (omega arith),
        float q 4 (omega arith),
        float q 8 (omega arith),
        float q 12 (omega arith),
      )
      tt

read_object_type-Readable : Readable read_object_type spi_object_type_size
unfolding read_object_type
read_object_type-Readable q h =
    rw (byte_at-ok q 0 (omega arith), float q 1 (omega arith), float q 5 (omega arith)) tt

read_fov_segment-Readable : Readable read_fov_segment spi_fov_segment_size
unfolding read_fov_segment
read_fov_segment-Readable q h =
    rw
      (
        float q 0 (omega arith),
        float q 4 (omega arith),
        float q 8 (omega arith),
        float q 12 (omega arith),
        byte_at-ok q 16 (omega arith),
      )
      tt

parse_sensor_pose-Readable : Readable parse_sensor_pose spi_sensor_pose_size
unfolding parse_sensor_pose
parse_sensor_pose-Readable q h =
    rw
      (
        float q 0 (omega arith),
        float q 4 (omega arith),
        float q 8 (omega arith),
        float q 12 (omega arith),
        float q 16 (omega arith),
        float q 20 (omega arith),
        float q 24 (omega arith),
        float q 28 (omega arith),
      )
      tt

module _ (p : List ℕ) where
  parse_reference_targets-IsSpi :
      (offset : ℕ) (msg : SpiMessage)
      → IsSpi msg
      → Safe WellFilled (parse_reference_targets p offset msg)
  unfolding parse_reference_targets
  parse_reference_targets-IsSpi offset msg v =
      with_count-Safe WellFilled p offset spi_ref_target_size _ _ _ v v λ declared h.
        let n : ℕ = min declared spi_max_ref_targets in
        Safe-bind (λ (a : List ReferenceTargetType). length a ≡ spi_max_ref_targets) WellFilled _ _
          (parse_elements_size read_ref_target p spi_ref_target_size n spi_max_ref_targets
            read_ref_target-Readable (omega arith) declared 0 (offset + 1)
            msg.reference_target_types h v.targets_size)
          (λ a e. record {
            fov_size = v.fov_size;
            fov_count = v.fov_count;
            objects_size = v.objects_size;
            objects_count = v.objects_count;
            targets_size = e;
            targets_count = omega arith;
          })

  parse_object_types-IsSpi :
      (offset : ℕ) (msg : SpiMessage)
      → IsSpi msg
      → Safe WellFilled (parse_object_types p offset msg)
  unfolding parse_object_types
  parse_object_types-IsSpi offset msg v =
      with_count-Safe WellFilled p offset spi_object_type_size _ _ _ v v λ declared h.
        let n : ℕ = min declared spi_max_object_types in
        Safe-bind (λ (a : List RecognisableObjectType). length a ≡ spi_max_object_types) WellFilled
          _ _
          (parse_elements_size read_object_type p spi_object_type_size n spi_max_object_types
            read_object_type-Readable (omega arith) declared 0 (offset + 1)
            msg.recognisable_object_types h v.objects_size)
          (λ a e. parse_reference_targets-IsSpi _ _ (record {
            fov_size = v.fov_size;
            fov_count = v.fov_count;
            objects_size = e;
            objects_count = omega arith;
            targets_size = v.targets_size;
            targets_count = v.targets_count;
          }))

  parse_fov_segments-IsSpi :
      (offset : ℕ) (msg : SpiMessage)
      → IsSpi msg
      → Safe WellFilled (parse_fov_segments p offset msg)
  unfolding parse_fov_segments
  parse_fov_segments-IsSpi offset msg v =
      with_count-Safe WellFilled p offset spi_fov_segment_size _ _ _ v v λ declared h.
        let n : ℕ = min declared spi_max_fov_segments in
        Safe-bind (λ (a : List FovSegment). length a ≡ spi_max_fov_segments) WellFilled _ _
          (parse_elements_size read_fov_segment p spi_fov_segment_size n spi_max_fov_segments
            read_fov_segment-Readable (omega arith) declared 0 (offset + 1) msg.fov_segments h
            v.fov_size)
          (λ a e. parse_object_types-IsSpi _ _ (record {
            fov_size = e;
            fov_count = omega arith;
            objects_size = v.objects_size;
            objects_count = v.objects_count;
            targets_size = v.targets_size;
            targets_count = v.targets_count;
          }))

pub spi_message_init-IsSpi : IsSpi spi_message_init
spi_message_init-IsSpi = record {
  fov_size = refl;
  fov_count = omega arith;
  objects_size = refl;
  objects_count = omega arith;
  targets_size = refl;
  targets_count = omega arith;
}

-- Whatever the payload announces, the SPI parser reads only bytes of it and writes only within the
-- arrays of the message: from a message with arrays of the declared sizes and counts within them it
-- leaves such a message, parsed or not.
pub parse-IsSpi :
    (payload : Option (List ℕ)) (msg : SpiMessage) → IsSpi msg → Safe WellFilled (parse payload msg)
unfolding parse
parse-IsSpi none msg v = v
parse-IsSpi (some p) msg v = elim (dec_le spi_min_size (length p)) [
  | yes h ↦
      rw
        (
          le→ltb (length p) spi_min_size h,
          parse_interface_header-ok p (omega arith),
          byte_at-ok p 24 (omega arith),
        )
        (Safe-bind (λ (_ : SensorPose). Unit {0}) WellFilled (parse_sensor_pose (drop 25 p)) _
          (parse_sensor_pose-Readable (drop 25 p) (omega (arith, length-drop {0} 25 p)))
          (λ pose _. parse_fov_segments-IsSpi p spi_min_size _ (record {
            fov_size = refl;
            fov_count = omega arith;
            objects_size = refl;
            objects_count = omega arith;
            targets_size = refl;
            targets_count = omega arith;
          })))
  | no h ↦ rw (lt→ltb (length p) spi_min_size (omega arith)) v
]
