-- ===== src/Parsers/ShiTypes.antt =====
-- The structure of include/afi920_driver/interface/AFI920/bts_iso23150_shi.h; an enumeration is the
-- number that the payload carries.
use afi920_ros2_driver.Base.{replicate, ℕ, List}
use afi920_ros2_driver.Parsers.Iso.{InterfaceHeader, zero_interface_header}

abbrev pub shi_max_operation_modes : ℕ
shi_max_operation_modes = 11

abbrev pub shi_max_input_signals : ℕ
shi_max_input_signals = 4

abbrev pub shi_max_calibration_components : ℕ
shi_max_calibration_components = 3

pub record ShiMessage : Type 0 where
  pub header : InterfaceHeader
  pub num_valid_operation_modes : ℕ
  pub sensor_operation_modes : List ℕ
  pub sensor_defect_recognised : ℕ
  pub sensor_defect_reason : ℕ
  pub supply_voltage_status : ℕ
  pub sensor_temperature_status : ℕ
  pub num_valid_input_signal_statuses : ℕ
  pub sensor_input_signal_types : List ℕ
  pub sensor_input_signal_statuses : List ℕ
  pub sensor_time_sync : ℕ
  pub num_valid_calibration_components : ℕ
  pub sensor_calibration_components : List ℕ
  pub sensor_calibration_statuses : List ℕ
  pub sensor_calibration_states : List ℕ
  pub sensor_time_sync_offset_value : ℕ

-- `memset(&msg, 0, sizeof(msg))`
abbrev pub shi_message_init : ShiMessage
shi_message_init = record {
  header = zero_interface_header;
  num_valid_operation_modes = 0;
  sensor_operation_modes = replicate shi_max_operation_modes 0;
  sensor_defect_recognised = 0;
  sensor_defect_reason = 0;
  supply_voltage_status = 0;
  sensor_temperature_status = 0;
  num_valid_input_signal_statuses = 0;
  sensor_input_signal_types = replicate shi_max_input_signals 0;
  sensor_input_signal_statuses = replicate shi_max_input_signals 0;
  sensor_time_sync = 0;
  num_valid_calibration_components = 0;
  sensor_calibration_components = replicate shi_max_calibration_components 0;
  sensor_calibration_statuses = replicate shi_max_calibration_components 0;
  sensor_calibration_states = replicate shi_max_calibration_components 0;
  sensor_time_sync_offset_value = 0;
}
