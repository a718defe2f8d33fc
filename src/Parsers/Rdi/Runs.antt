-- ===== src/Parsers/Rdi/Runs.antt =====
-- The RDI theorems at concrete payloads.
use afi920_ros2_driver.Base.{
  pos, length, drop, replicate, ok, ℕ, ◌-◌, ◌/◌, min, ◌≡◌, some, List, [], ◌∷◌, ◌++◌, arith,
}
use afi920_ros2_driver.Parsers.Iso.{InterfaceHeader}
use afi920_ros2_driver.Parsers.RdiTypes.{
  RdiFrame, rdi_frame_init, rdi_max_detections, rdi_detection_size, rdi_header_size,
}
use afi920_ros2_driver.Wire.Total.{le16}
use afi920_ros2_driver.Parsers.Rdi.{parse}
use afi920_ros2_driver.Parsers.Rdi.Total.{parse_counts}
use afi920_ros2_driver.Parsers.Rdi.Layout.{WireDetection, from_wire}
use afi920_ros2_driver.Parsers.Rdi.RoundTrip.{serialize, parse-serialize}

-- A payload that announces 65535 detections and holds none.
abbrev greedy : List ℕ
greedy = replicate 34 0 ++ 255 ∷ 255 ∷ []

parse_counts_example :
    (f : RdiFrame) × (parse (some greedy) rdi_frame_init ≡ ok (pos 0, f))
    × (f.message.num_detections
        ≡ min
            (min (le16 (drop 34 greedy)) rdi_max_detections)
            ((length greedy - rdi_header_size) / rdi_detection_size))
    × (length f.detections_storage ≡ f.message.num_detections)
parse_counts_example = parse_counts greedy rdi_frame_init (omega arith)

abbrev sample_header : InterfaceHeader
sample_header = record {
  interface_version = record { major = 1; minor = 2; patch = 3 };
  interface_id = 8;
  num_serving_sensors = 1;
  sensor_id = 4;
  timestamp = 1_700_000_000_000_000_000;
  message_counter = 4_294_967_295;
  interface_cycle_time = 50_000_000;
  interface_cycle_time_variation = 1;
  data_qualifier = 0;
}

abbrev sample_detection : WireDetection
sample_detection = record {
  existence_probability = 80;
  detection_id = 7;
  object_id_reference = 65535;
  timestamp_difference = 0x3f80_0000;
  radar_cross_section = 0x4120_0000;
  signal_to_noise_ratio = 0x41a0_0000;
  ambiguity_grouping_id = 3;
  radial_distance = 0x4248_0000;
  azimuth = 0x3dcc_cccd;
  elevation = 0xbdcc_cccd;
  radial_distance_error = 1;
  azimuth_error = 2;
  elevation_error = 3;
  velocity = 0xc120_0000;
  velocity_error = 5;
}

parse-serialize_example :
    parse
      (some (serialize sample_header 1 2 4096 (sample_detection ∷ sample_detection ∷ []) (9 ∷ [])))
      rdi_frame_init
    ≡ ok (
      pos 0,
      record rdi_frame_init {
        message = record {
          header = sample_header;
          ambiguity_domain = record {
            radial_velocity_begin = 1;
            radial_velocity_end = 2;
            range_begin = 0;
            range_end = 0;
            azimuth_begin = 0;
            azimuth_end = 0;
            elevation_begin = 0;
            elevation_end = 0;
          };
          recognised_detections_capability = 4096;
          recognised_detections_status = 0;
          num_detections = 2;
        };
        detections_storage = from_wire sample_detection ∷ from_wire sample_detection ∷ [];
      },
    )
parse-serialize_example =
    parse-serialize sample_header 1 2 4096 (sample_detection ∷ sample_detection ∷ []) (9 ∷ [])
      rdi_frame_init (omega arith) (omega arith) (omega arith) (omega arith) (omega arith)
      (omega arith)
