-- ===== src/Parsers/Iso.antt =====
-- The common interface header of ISO 23150, which the three payloads begin with. The three message
-- structures of include/afi920_driver/interface and the three parsers repeat it field by field.
pub mod Header
use afi920_ros2_driver.Base.{drop, Access, ok, ◌>>=◌, byte_at, ℕ, List}
use afi920_ros2_driver.Wire.{unpack_le32, unpack_le64}

pub record InterfaceVersion : Type 0 where
  pub major : ℕ
  pub minor : ℕ
  pub patch : ℕ

pub record InterfaceHeader : Type 0 where
  pub interface_version : InterfaceVersion
  pub interface_id : ℕ
  pub num_serving_sensors : ℕ
  pub sensor_id : ℕ
  pub timestamp : ℕ
  pub message_counter : ℕ
  pub interface_cycle_time : ℕ
  pub interface_cycle_time_variation : ℕ
  pub data_qualifier : ℕ

-- All zero, as after `memset`.
abbrev pub zero_interface_header : InterfaceHeader
zero_interface_header = record {
  interface_version = record { major = 0; minor = 0; patch = 0 };
  interface_id = 0;
  num_serving_sensors = 0;
  sensor_id = 0;
  timestamp = 0;
  message_counter = 0;
  interface_cycle_time = 0;
  interface_cycle_time_variation = 0;
  data_qualifier = 0;
}

abbrev pub common_header_size : ℕ
common_header_size = 24

unfoldable pub parse_interface_header : List ℕ → Access InterfaceHeader
parse_interface_header p = do
  major ← byte_at p 0
  minor ← byte_at p 1
  patch ← byte_at p 2
  interface_id ← byte_at p 3
  num_serving_sensors ← byte_at p 4
  sensor_id ← byte_at p 5
  timestamp ← unpack_le64 (drop 6 p)
  message_counter ← unpack_le32 (drop 14 p)
  interface_cycle_time ← unpack_le32 (drop 18 p)
  interface_cycle_time_variation ← byte_at p 22
  data_qualifier ← byte_at p 23
  ok (record {
    interface_version = record { major = major; minor = minor; patch = patch };
    interface_id = interface_id;
    num_serving_sensors = num_serving_sensors;
    sensor_id = sensor_id;
    timestamp = timestamp;
    message_counter = message_counter;
    interface_cycle_time = interface_cycle_time;
    interface_cycle_time_variation = interface_cycle_time_variation;
    data_qualifier = data_qualifier;
  })
