-- ===== src/Parsers/Spi/Runs.antt =====
-- The SPI parser at a concrete payload.
use afi920_ros2_driver.Base.{pos, replicate, ok, ◌≡◌, some, [], ◌∷◌, arith}
use afi920_ros2_driver.Parsers.SpiTypes.{spi_message_init}
use afi920_ros2_driver.Parsers.Spi.{parse}
use afi920_ros2_driver.Parsers.Iso.{zero_interface_header}
use afi920_ros2_driver.Parsers.Spi.RoundTrip.{WireSpi, serialize, message_of, parse-performance}

-- A pose, one segment, 17 object types, of which the message holds 16, and no target.
abbrev performance : WireSpi
performance = record {
  coordinate_system = 1;
  pose = record {
    origin_point_x = 1;
    origin_point_y = 2;
    origin_point_z = 3;
    origin_point_error_x = 0;
    origin_point_error_y = 0;
    origin_point_error_z = 0;
    orientation_yaw = 4;
    orientation_pitch = 5;
    orientation_roll = 6;
    orientation_error_yaw = 7;
    orientation_error_pitch = 8;
    orientation_error_roll = 0;
  };
  segments =
      record {
        azimuth_begin = 1;
        azimuth_end = 2;
        elevation_begin = 3;
        elevation_end = 4;
        blockage_status = 5;
      }
      ∷ [];
  object_types =
      replicate 17
        (record { object_type = 2; detection_range_begin = 3; detection_range_end = 400 });
  targets = [];
}

parse-performance_example :
    parse (some (serialize zero_interface_header performance (9 ∷ []))) spi_message_init
    ≡ ok (pos 0, message_of zero_interface_header performance (9 ∷ []))
parse-performance_example =
    parse-performance zero_interface_header performance (9 ∷ []) spi_message_init (omega arith)
      (omega arith)
