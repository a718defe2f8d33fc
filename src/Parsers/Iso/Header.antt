-- ===== src/Parsers/Iso/Header.antt =====
-- The common header by the bytes of the payload, and read back from a packed one.
use afi920_ros2_driver.Base.{
  length, drop, length-drop, ok, byte_at-ok, ℕ, ◌^◌, ◌≤◌, ◌<◌, ◌≡◌, List, [], ◌∷◌, ◌++◌, arith,
}
use afi920_ros2_driver.Wire.{pack_le32, pack_le64}
use afi920_ros2_driver.Wire.Total.{u8, le32, le64, unpack_le32-ok, unpack_le64-ok}
use afi920_ros2_driver.Wire.RoundTrip.{join_le32_bytes, join_le64_bytes}
use afi920_ros2_driver.Parsers.Iso.{InterfaceHeader, parse_interface_header, common_header_size}

abbrev pub interface_header_at : List ℕ → InterfaceHeader
interface_header_at p = record {
  interface_version = record { major = u8 p 0; minor = u8 p 1; patch = u8 p 2 };
  interface_id = u8 p 3;
  num_serving_sensors = u8 p 4;
  sensor_id = u8 p 5;
  timestamp = le64 (drop 6 p);
  message_counter = le32 (drop 14 p);
  interface_cycle_time = le32 (drop 18 p);
  interface_cycle_time_variation = u8 p 22;
  data_qualifier = u8 p 23;
}

pub parse_interface_header-ok :
    (p : List ℕ)
    → common_header_size ≤ length p
    → parse_interface_header p ≡ ok (interface_header_at p)
unfolding parse_interface_header
parse_interface_header-ok p h = rw (
  byte_at-ok p 0 (omega arith),
  byte_at-ok p 1 (omega arith),
  byte_at-ok p 2 (omega arith),
  byte_at-ok p 3 (omega arith),
  byte_at-ok p 4 (omega arith),
  byte_at-ok p 5 (omega arith),
  unpack_le64-ok (drop 6 p) (omega (arith, length-drop {0} 6 p)),
  unpack_le32-ok (drop 14 p) (omega (arith, length-drop {0} 14 p)),
  unpack_le32-ok (drop 18 p) (omega (arith, length-drop {0} 18 p)),
  byte_at-ok p 22 (omega arith),
  byte_at-ok p 23 (omega arith),
)

-- The header as the sensor lays it out.
unfoldable pub serialize_interface_header : InterfaceHeader → List ℕ
serialize_interface_header h =
    h.interface_version.major ∷ h.interface_version.minor ∷ h.interface_version.patch
      ∷ h.interface_id ∷ h.num_serving_sensors ∷ h.sensor_id ∷ []
    ++ pack_le64 h.timestamp
    ++ pack_le32 h.message_counter
    ++ pack_le32 h.interface_cycle_time
    ++ h.interface_cycle_time_variation ∷ h.data_qualifier ∷ []

-- Its integers of several bytes are in range.
pub record IsInterfaceHeader (h : InterfaceHeader) : Type 0 where
  pub timestamp_fits : h.timestamp < 2 ^ 64
  pub counter_fits : h.message_counter < 2 ^ 32
  pub cycle_fits : h.interface_cycle_time < 2 ^ 32

pub interface_header_at-serialize :
    (h : InterfaceHeader) (rest : List ℕ)
    → IsInterfaceHeader h
    → interface_header_at (serialize_interface_header h ++ rest) ≡ h
unfolding serialize_interface_header pack_le32 pack_le64
interface_header_at-serialize h rest v = λ i. record {
  interface_version = h.interface_version;
  interface_id = h.interface_id;
  num_serving_sensors = h.num_serving_sensors;
  sensor_id = h.sensor_id;
  timestamp = join_le64_bytes h.timestamp v.timestamp_fits i;
  message_counter = join_le32_bytes h.message_counter v.counter_fits i;
  interface_cycle_time = join_le32_bytes h.interface_cycle_time v.cycle_fits i;
  interface_cycle_time_variation = h.interface_cycle_time_variation;
  data_qualifier = h.data_qualifier;
}
