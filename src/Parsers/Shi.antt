-- ===== src/Parsers/Shi.antt =====
-- src/shi_parser.cpp: `ShiParser::Parse`, one function for each section of the payload, which calls
-- the next. `offset` and the message so far are arguments; an early return keeps what was filled in.
pub mod Total
pub mod Sections
pub mod RoundTrip
mod Runs
use afi920_ros2_driver.Base.{
  ltb, leb, if◌then◌else◌, ℤ, pos, negsuc, length, drop, Access, ok, ◌>>=◌, memcpy, byte_at, ℕ, ◌+◌,
  min, Option, none, some, List,
}
use afi920_ros2_driver.Parsers.Iso.{parse_interface_header, common_header_size}
use afi920_ros2_driver.Parsers.Section.{with_count}
use afi920_ros2_driver.Parsers.ShiTypes.{
  ShiMessage, shi_message_init, shi_max_operation_modes, shi_max_input_signals,
  shi_max_calibration_components,
}

abbrev pub shi_min_size : ℕ
shi_min_size = 32

unfoldable pub parse_calibration : List ℕ → ℕ → ShiMessage → Access (ℤ × ShiMessage)
parse_calibration p offset msg =
    with_count p offset 3 (negsuc 0, msg) (negsuc 0, msg)
      λ declared.
        let at = offset + 1 in
        let count = min declared shi_max_calibration_components in
        do
          components ← memcpy msg.sensor_calibration_components (drop at p) count
          statuses ← memcpy msg.sensor_calibration_statuses (drop (at + declared) p) count
          states ← memcpy msg.sensor_calibration_states (drop (at + declared + declared) p) count
          ok (
            pos 0,
            record msg {
              num_valid_calibration_components = count;
              sensor_calibration_components = components;
              sensor_calibration_statuses = statuses;
              sensor_calibration_states = states;
            },
          )

unfoldable pub parse_time_sync : List ℕ → ℕ → ShiMessage → Access (ℤ × ShiMessage)
parse_time_sync p offset msg = if leb (length p) offset then ok (negsuc 0, msg) else do
  sync ← byte_at p offset
  parse_calibration p (offset + 1)
      (record msg { sensor_time_sync = sync; sensor_time_sync_offset_value = 0 })

unfoldable pub parse_input_signals : List ℕ → ℕ → ShiMessage → Access (ℤ × ShiMessage)
parse_input_signals p offset msg =
    with_count p offset 2 (negsuc 0, msg) (negsuc 0, msg)
      λ declared.
        let at = offset + 1 in
        let count = min declared shi_max_input_signals in
        do
          types ← memcpy msg.sensor_input_signal_types (drop at p) count
          statuses ← memcpy msg.sensor_input_signal_statuses (drop (at + declared) p) count
          parse_time_sync p (at + declared + declared) (record msg {
            num_valid_input_signal_statuses = count;
            sensor_input_signal_types = types;
            sensor_input_signal_statuses = statuses;
          })

unfoldable pub parse_status : List ℕ → ℕ → ShiMessage → Access (ℤ × ShiMessage)
parse_status p offset msg = if ltb (length p) (offset + 4) then ok (negsuc 0, msg) else do
  recognised ← byte_at p offset
  reason ← byte_at p (offset + 1)
  voltage ← byte_at p (offset + 2)
  temperature ← byte_at p (offset + 3)
  parse_input_signals p (offset + 4) (record msg {
    sensor_defect_recognised = recognised;
    sensor_defect_reason = reason;
    supply_voltage_status = voltage;
    sensor_temperature_status = temperature;
  })

unfoldable pub parse_operation_modes : List ℕ → ℕ → ShiMessage → Access (ℤ × ShiMessage)
parse_operation_modes p offset msg =
    with_count p offset 1 (negsuc 0, msg) (negsuc 0, msg)
      λ declared.
        let at = offset + 1 in
        let count = min declared shi_max_operation_modes in
        do
          modes ← memcpy msg.sensor_operation_modes (drop at p) count
          parse_status p (at + declared)
              (record msg { num_valid_operation_modes = count; sensor_operation_modes = modes })

unfoldable pub parse : Option (List ℕ) → ShiMessage → Access (ℤ × ShiMessage)
parse none msg = ok (negsuc 0, msg)
parse (some payload) msg = if ltb (length payload) shi_min_size then ok (negsuc 0, msg) else do
  header ← parse_interface_header payload
  parse_operation_modes payload common_header_size (record shi_message_init { header = header })
