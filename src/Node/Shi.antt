-- ===== src/Node/Shi.antt =====
-- The SHII stream in src/afi920_node.cpp, from the datagram to the health message.
pub mod Total
pub mod Stream
use afi920_ros2_driver.Base.{
  ltb, ◌!=◌, if◌then◌else◌, is_negative, length, take, drop, Access, ok, ◌>>=◌, ℕ, false, not, ◌||◌,
  Option, none, some, List, [], ◌∷◌,
}
use afi920_ros2_driver.Someip.{someip_header_size, someip_deserialize, someip_validate, event_shii}
use afi920_ros2_driver.E2e.{E2eHeader, e2e_data_id_shii}
use afi920_ros2_driver.Parsers.Shi.{parse}
use afi920_ros2_driver.Parsers.ShiTypes.{
  ShiMessage, shi_message_init, shi_max_operation_modes, shi_max_input_signals,
  shi_max_calibration_components,
}
use afi920_ros2_driver.Node.Types.{
  Node, Event, Clock, HealthInfo, publish_health, someip_header_unset,
}
use afi920_ros2_driver.Node.Gate.{consume_e2e_header, is_zero}

-- The loops copy whole arrays.
unfoldable pub health_info : Node → ℕ → ShiMessage → HealthInfo
health_info n stamp msg = record {
  stamp = stamp;
  frame_id = n.frame_id;
  sensor_id = msg.header.sensor_id;
  message_counter = msg.header.message_counter;
  data_qualifier = msg.header.data_qualifier;
  num_operation_modes = msg.num_valid_operation_modes;
  operation_modes = take shi_max_operation_modes msg.sensor_operation_modes;
  defect_recognised = msg.sensor_defect_recognised;
  defect_reason = msg.sensor_defect_reason;
  supply_voltage_status = msg.supply_voltage_status;
  temperature_status = msg.sensor_temperature_status;
  num_input_signal_statuses = msg.num_valid_input_signal_statuses;
  input_signal_types = take shi_max_input_signals msg.sensor_input_signal_types;
  input_signal_statuses = take shi_max_input_signals msg.sensor_input_signal_statuses;
  time_sync_status = msg.sensor_time_sync;
  time_sync_offset = msg.sensor_time_sync_offset_value;
  num_calibration_components = msg.num_valid_calibration_components;
  calibration_components = take shi_max_calibration_components msg.sensor_calibration_components;
  calibration_statuses = take shi_max_calibration_components msg.sensor_calibration_statuses;
  calibration_states = take shi_max_calibration_components msg.sensor_calibration_states;
  timestamp_measurement_ns = msg.header.timestamp;
}

-- The test for a gap between the counters only leads to a log message.
unfoldable pub on_shi_message : Node → ShiMessage → ℕ → Node × List Event
on_shi_message n msg stamp = if not n.pub_shi then (n, []) else (
  record n { first_shi = false; last_shi_counter = msg.header.message_counter },
  publish_health (health_info n stamp msg) ∷ [],
)

unfoldable pub shi_payload_received :
    Node → Clock → Option (List ℕ × E2eHeader) → Access (Node × List Event)
unfolding is_zero
shi_payload_received n clock none = ok (n, [])
shi_payload_received n clock (some (payload, e2e)) = do
  (rc, msg) ← parse (some payload) shi_message_init
  ok (if is_zero rc then on_shi_message n msg clock.stamp else (n, []))

unfoldable pub process_shi_datagram : Node → Clock → List ℕ → Access (Node × List Event)
process_shi_datagram n clock datagram =
    if ltb (length datagram) someip_header_size then ok (n, []) else do
      (rc, hdr) ← someip_deserialize (some datagram) someip_header_unset
      if is_negative rc || not (someip_validate hdr) || hdr.method_id != event_shii
          then ok (n, [])
          else (do
            consumed ←
                consume_e2e_header n.validate_e2e n.e2e_strict (drop someip_header_size datagram)
                  e2e_data_id_shii
            shi_payload_received n clock consumed)
