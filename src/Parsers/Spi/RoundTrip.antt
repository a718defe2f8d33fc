-- ===== src/Parsers/Spi/RoundTrip.antt =====
-- The SPI parser reads back what a sensor lays out.
use afi920_ros2_driver.Base.{
  le→ltb, pos, length, drop, All, length-append, ok, byte_at-ok, ℕ, ◌+◌, ◌*◌, ◌≤◌, min, ◌≡◌, refl,
  ap, ◌∙◌, some, List, ◌∷◌, ◌++◌, arith,
}
use afi920_ros2_driver.Wire.{pack_le32, pack_le64}
use afi920_ros2_driver.Parsers.Iso.{InterfaceHeader, parse_interface_header}
use afi920_ros2_driver.Parsers.Iso.Header.{
  serialize_interface_header, IsInterfaceHeader, interface_header_at-serialize,
  parse_interface_header-ok,
}
use afi920_ros2_driver.Parsers.At.{at_cons, at_append}
use afi920_ros2_driver.Parsers.Elements.Read.{
  serialize_elements, overlay, section-read, after_section,
}
use afi920_ros2_driver.Parsers.SpiTypes.{
  SensorPose, FovSegment, RecognisableObjectType, ReferenceTargetType, SpiMessage, spi_message_init,
  spi_max_fov_segments, spi_max_object_types, spi_max_ref_targets, spi_fov_segment_size,
  spi_object_type_size, spi_ref_target_size,
}
use afi920_ros2_driver.Parsers.Spi.{
  read_ref_target, read_object_type, read_fov_segment, parse_sensor_pose, parse_reference_targets,
  parse_object_types, parse_fov_segments, parse, spi_min_size,
}
use afi920_ros2_driver.Parsers.Spi.Elements.{
  IsReferenceTargetType, serialize_ref_target, read_ref_target-Decodes, IsRecognisableObjectType,
  serialize_object_type, read_object_type-Decodes, IsFovSegment, serialize_fov_segment,
  read_fov_segment-Decodes, IsSensorPose, serialize_sensor_pose, length-serialize_sensor_pose,
  parse_sensor_pose-serialize,
}

-- What a sensor reports.
pub record WireSpi : Type 0 where
  pub coordinate_system : ℕ
  pub pose : SensorPose
  pub segments : List FovSegment
  pub object_types : List RecognisableObjectType
  pub targets : List ReferenceTargetType

-- The floats are in range, and the pose has only what the payload carries.
pub record IsWireSpi (w : WireSpi) : Type 0 where
  pub pose_fits : IsSensorPose w.pose
  pub segments_fit : All IsFovSegment w.segments
  pub object_types_fit : All IsRecognisableObjectType w.object_types
  pub targets_fit : All IsReferenceTargetType w.targets

module _ (h : InterfaceHeader) (w : WireSpi) (rest : List ℕ) where
  abbrev targets : List ℕ
  targets = length w.targets ∷ serialize_elements serialize_ref_target w.targets rest

  abbrev object_types : List ℕ
  object_types =
      length w.object_types ∷ serialize_elements serialize_object_type w.object_types targets

  abbrev segments : List ℕ
  segments = length w.segments ∷ serialize_elements serialize_fov_segment w.segments object_types

  -- An SPI payload: the header, the coordinate system, the pose, the sections, and whatever follows.
  unfoldable pub serialize : List ℕ
  serialize =
      serialize_interface_header h
      ++ w.coordinate_system ∷ (serialize_sensor_pose w.pose ++ segments)

  -- The messages after the sections, one by one.
  abbrev with_pose : SpiMessage
  with_pose = record spi_message_init {
    header = h;
    vehicle_coordinate_system = w.coordinate_system;
    sensor_pose = w.pose;
  }

  abbrev with_segments : SpiMessage
  with_segments = record with_pose {
    num_fov_segments = min (length w.segments) spi_max_fov_segments;
    fov_segments = overlay spi_message_init.fov_segments w.segments;
  }

  abbrev with_object_types : SpiMessage
  with_object_types = record with_segments {
    num_recognisable_object_types = min (length w.object_types) spi_max_object_types;
    recognisable_object_types = overlay spi_message_init.recognisable_object_types w.object_types;
  }

  -- The message that the payload stands for: of each section as many elements as the message holds.
  abbrev pub message_of : SpiMessage
  message_of = record with_object_types {
    num_reference_target_types = min (length w.targets) spi_max_ref_targets;
    reference_target_types = overlay spi_message_init.reference_target_types w.targets;
  }

  size : 57 ≤ length serialize
  unfolding serialize serialize_interface_header pack_le32 pack_le64
  size = omega (
    arith,
    length-append (serialize_sensor_pose w.pose) segments,
    length-serialize_sensor_pose w.pose,
  )

  behind_header :
      drop 24 serialize ≡ w.coordinate_system ∷ (serialize_sensor_pose w.pose ++ segments)
  unfolding serialize serialize_interface_header pack_le32 pack_le64
  behind_header = refl

  header_read : IsInterfaceHeader h → parse_interface_header serialize ≡ ok h
  unfolding serialize
  header_read v =
      parse_interface_header-ok (serialize_interface_header h ++ _) (omega (arith, size))
      ∙ ap ok (interface_header_at-serialize h _ v)

  module _ (p : List ℕ) (v : IsWireSpi w) where
    targets_read :
        (offset : ℕ)
        → drop offset p ≡ targets
        → parse_reference_targets p offset with_object_types ≡ ok (pos 0, message_of)
    unfolding parse_reference_targets
    targets_read offset e =
        section-read read_ref_target serialize_ref_target spi_ref_target_size _
          read_ref_target-Decodes p w.targets rest offset e spi_max_ref_targets
          spi_message_init.reference_target_types _ _ _ refl v.targets_fit

    object_types_read :
        (offset : ℕ)
        → drop offset p ≡ object_types
        → parse_object_types p offset with_segments ≡ ok (pos 0, message_of)
    unfolding parse_object_types
    object_types_read offset e =
        section-read read_object_type serialize_object_type spi_object_type_size _
          read_object_type-Decodes p w.object_types targets offset e spi_max_object_types
          spi_message_init.recognisable_object_types _ _ _ refl v.object_types_fit
        ∙ targets_read (offset + 1 + length w.object_types * spi_object_type_size) (
            after_section read_object_type serialize_object_type spi_object_type_size _
              read_object_type-Decodes p w.object_types targets offset e)

    segments_read :
        (offset : ℕ)
        → drop offset p ≡ segments
        → parse_fov_segments p offset with_pose ≡ ok (pos 0, message_of)
    unfolding parse_fov_segments
    segments_read offset e =
        section-read read_fov_segment serialize_fov_segment spi_fov_segment_size _
          read_fov_segment-Decodes p w.segments object_types offset e spi_max_fov_segments
          spi_message_init.fov_segments _ _ _ refl v.segments_fit
        ∙ object_types_read (offset + 1 + length w.segments * spi_fov_segment_size) (
            after_section read_fov_segment serialize_fov_segment spi_fov_segment_size _
              read_fov_segment-Decodes p w.segments object_types offset e)

  -- The payload of a header with its fields in range and of a report with its floats in range is
  -- parsed to a message with that header, that coordinate system, that pose and those segments, types
  -- and targets, whatever follows and whatever the message held before. Of a section that is longer
  -- than the array of the message, as many elements are kept as the latter holds, and what follows is
  -- still read at its place. The pose has the errors zero that the payload does not carry.
  pub parse-performance :
      (msg : SpiMessage)
      → IsInterfaceHeader h
      → IsWireSpi w
      → parse (some serialize) msg ≡ ok (pos 0, message_of)
  unfolding parse
  parse-performance msg vh v =
      let (here, first, ep) = at_cons serialize 24 _ _ behind_header in
      rw
        (
          le→ltb (length serialize) spi_min_size size,
          header_read vh,
          byte_at-ok serialize 24 here,
          first,
          ap parse_sensor_pose ep ∙ parse_sensor_pose-serialize w.pose segments v.pose_fits,
        )
        (segments_read serialize v 57 (
          at_append serialize 25 32 (serialize_sensor_pose w.pose) segments ep
            (length-serialize_sensor_pose w.pose)))
