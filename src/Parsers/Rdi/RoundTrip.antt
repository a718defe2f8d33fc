-- ===== src/Parsers/Rdi/RoundTrip.antt =====
-- The RDI parser reads back what a sensor lays out.
use afi920_ros2_driver.Base.{
  pos, length, drop, All, length-append, ok, ℕ, ◌+◌, ◌^◌, ◌≤◌, ◌<◌, ◌≡◌, refl, ap, ◌∙◌, some, List,
  ◌++◌, map, arith,
}
use afi920_ros2_driver.Parsers.Iso.{InterfaceHeader}
use afi920_ros2_driver.Parsers.Iso.Header.{
  serialize_interface_header, IsInterfaceHeader, interface_header_at, interface_header_at-serialize,
}
use afi920_ros2_driver.Wire.{pack_le16, pack_le32, pack_le64}
use afi920_ros2_driver.Wire.Total.{le16, le32}
use afi920_ros2_driver.Wire.RoundTrip.{join_le16_bytes, join_le32_bytes}
use afi920_ros2_driver.Parsers.RdiTypes.{rdi_max_detections, RdiFrame}
use afi920_ros2_driver.Parsers.Rdi.{parse, clamp_detections}
use afi920_ros2_driver.Parsers.Rdi.Total.{
  detections_at, clamp_detections-min, parse-frame_at, count,
}
use afi920_ros2_driver.Parsers.Rdi.Layout.{
  WireDetection, IsWireDetection, from_wire, serialize_detections, length-serialize_detections,
  detections_at-serialize,
}

module _ (h : InterfaceHeader) (velocity_begin velocity_end capability : ℕ)
    (ws : List WireDetection) (rest : List ℕ) where
  -- An RDI payload: the header, the detections, and whatever follows.
  unfoldable pub serialize : List ℕ
  serialize =
      serialize_interface_header h
      ++ (pack_le32 velocity_begin
          ++ pack_le32 velocity_end
          ++ pack_le16 capability
          ++ pack_le16 (length ws)
          ++ (serialize_detections ws ++ rest))

  length-serialize : length serialize ≡ 36 + length (serialize_detections ws ++ rest)
  unfolding serialize serialize_interface_header pack_le16 pack_le32 pack_le64
  length-serialize = omega arith

  drop-header : drop 36 serialize ≡ serialize_detections ws ++ rest
  unfolding serialize serialize_interface_header pack_le16 pack_le32 pack_le64
  drop-header = refl

  fields :
      velocity_begin < 2 ^ 32
      → velocity_end < 2 ^ 32
      → capability < 2 ^ 16
      → length ws ≤ rdi_max_detections
      → (le32 (drop 24 serialize) ≡ velocity_begin)
        × (le32 (drop 28 serialize) ≡ velocity_end)
        × (le16 (drop 32 serialize) ≡ capability)
        × (le16 (drop 34 serialize) ≡ length ws)
  unfolding serialize serialize_interface_header pack_le16 pack_le32 pack_le64
  fields hb he hc hn = (
    join_le32_bytes velocity_begin hb,
    join_le32_bytes velocity_end he,
    join_le16_bytes capability hc,
    join_le16_bytes (length ws) (omega arith),
  )

  header : IsInterfaceHeader h → interface_header_at serialize ≡ h
  unfolding serialize
  header v = interface_header_at-serialize h _ v

  every_detection :
      All IsWireDetection ws → detections_at serialize 0 (length ws) ≡ map from_wire ws
  every_detection v = detections_at-serialize serialize 0 ws rest drop-header v

  count-serialize :
      (frame : RdiFrame)
      → length ws ≤ rdi_max_detections
      → le16 (drop 34 serialize) ≡ length ws
      → count serialize frame ≡ length ws
  count-serialize frame hn e =
      ap (clamp_detections (length serialize)) e
      ∙ clamp_detections-min (length serialize) (length ws) (omega (arith, length-serialize))
      ∙ omega (
        arith,
        length-serialize,
        length-append (serialize_detections ws) rest,
        length-serialize_detections ws,
      )

  -- The payload of a header and of at most 4096 detections, all with their fields in range, is
  -- parsed to a frame with that header, those velocity limits and exactly those detections, whatever
  -- follows the detections and whatever the frame held before.
  pub parse-serialize :
      (frame : RdiFrame)
      → IsInterfaceHeader h
      → velocity_begin < 2 ^ 32
      → velocity_end < 2 ^ 32
      → capability < 2 ^ 16
      → length ws ≤ rdi_max_detections
      → All IsWireDetection ws
      → parse (some serialize) frame
        ≡ ok (
          pos 0,
          record frame {
            message = record {
              header = h;
              ambiguity_domain = record {
                radial_velocity_begin = velocity_begin;
                radial_velocity_end = velocity_end;
                range_begin = 0;
                range_end = 0;
                azimuth_begin = 0;
                azimuth_end = 0;
                elevation_begin = 0;
                elevation_end = 0;
              };
              recognised_detections_capability = capability;
              recognised_detections_status = 0;
              num_detections = length ws;
            };
            detections_storage = map from_wire ws;
          },
        )
  parse-serialize frame hh hb he hc hn hw =
      parse-frame_at serialize frame (omega (arith, length-serialize)) ∙ (λ i. ok (
        pos 0,
        record frame {
          message = record {
            header = header hh i;
            ambiguity_domain = record {
              radial_velocity_begin = (fields hb he hc hn).0 i;
              radial_velocity_end = (fields hb he hc hn).1 i;
              range_begin = 0;
              range_end = 0;
              azimuth_begin = 0;
              azimuth_end = 0;
              elevation_begin = 0;
              elevation_end = 0;
            };
            recognised_detections_capability = (fields hb he hc hn).2 i;
            recognised_detections_status = 0;
            num_detections = counted i;
          };
          detections_storage = (ap (detections_at serialize 0) counted ∙ every_detection hw) i;
        },
      ))
    where
      counted : count serialize frame ≡ length ws
      counted = count-serialize frame hn (fields hb he hc hn).3
