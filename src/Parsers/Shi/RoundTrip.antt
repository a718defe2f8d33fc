-- ===== src/Parsers/Shi/RoundTrip.antt =====
-- The SHII parser reads back what a sensor lays out.
use afi920_ros2_driver.Base.{
  le→ltb, pos, length, drop, length-append, drop-drop, ok, ℕ, ◌+◌, ◌≤◌, min, ◌≡◌, refl, ap, ◌∙◌,
  some, List, ◌∷◌, ◌++◌, arith,
}
use afi920_ros2_driver.Wire.{pack_le32, pack_le64}
use afi920_ros2_driver.Parsers.Iso.{InterfaceHeader, parse_interface_header}
use afi920_ros2_driver.Parsers.Iso.Header.{
  serialize_interface_header, IsInterfaceHeader, interface_header_at-serialize,
  parse_interface_header-ok,
}
use afi920_ros2_driver.Parsers.At.{at_cons, at_append}
use afi920_ros2_driver.Parsers.ShiTypes.{
  ShiMessage, shi_message_init, shi_max_operation_modes, shi_max_input_signals,
  shi_max_calibration_components,
}
use afi920_ros2_driver.Parsers.Shi.{shi_min_size, parse, parse_operation_modes}
use afi920_ros2_driver.Parsers.Shi.Total.{IsShi}
use afi920_ros2_driver.Parsers.Shi.Sections.{
  filled, length-filled, parse_calibration-read, parse_time_sync-read, parse_input_signals-read,
  parse_status-read, parse_operation_modes-read,
}

-- What a sensor reports.
pub record WireShi : Type 0 where
  pub operation_modes : List ℕ
  pub defect_recognised : ℕ
  pub defect_reason : ℕ
  pub supply_voltage : ℕ
  pub temperature : ℕ
  pub input_types : List ℕ
  pub input_statuses : List ℕ
  pub time_sync : ℕ
  pub components : List ℕ
  pub calibration_statuses : List ℕ
  pub calibration_states : List ℕ

-- The parallel arrays are of one length.
pub record IsWireShi (w : WireShi) : Type 0 where
  pub inputs : length w.input_statuses ≡ length w.input_types
  pub statuses : length w.calibration_statuses ≡ length w.components
  pub states : length w.calibration_states ≡ length w.components

module _ (h : InterfaceHeader) (w : WireShi) (rest : List ℕ) where
  abbrev calibrations : List ℕ
  calibrations =
      length w.components
      ∷ (w.components ++ (w.calibration_statuses ++ (w.calibration_states ++ rest)))

  abbrev inputs : List ℕ
  inputs =
      length w.input_types ∷ (w.input_types ++ (w.input_statuses ++ w.time_sync ∷ calibrations))

  abbrev status : List ℕ
  status = w.defect_recognised ∷ w.defect_reason ∷ w.supply_voltage ∷ w.temperature ∷ inputs

  abbrev sections : List ℕ
  sections = length w.operation_modes ∷ (w.operation_modes ++ status)

  -- An SHII payload: the header, the sections, and whatever follows.
  unfoldable pub serialize : List ℕ
  serialize = serialize_interface_header h ++ sections

  -- The messages after the sections, one by one.
  abbrev with_header : ShiMessage
  with_header = record shi_message_init { header = h }

  abbrev with_modes : ShiMessage
  with_modes = record with_header {
    num_valid_operation_modes = min (length w.operation_modes) shi_max_operation_modes;
    sensor_operation_modes =
        filled shi_max_operation_modes shi_message_init.sensor_operation_modes w.operation_modes;
  }

  abbrev with_status : ShiMessage
  with_status = record with_modes {
    sensor_defect_recognised = w.defect_recognised;
    sensor_defect_reason = w.defect_reason;
    supply_voltage_status = w.supply_voltage;
    sensor_temperature_status = w.temperature;
  }

  abbrev with_inputs : ShiMessage
  with_inputs = record with_status {
    num_valid_input_signal_statuses = min (length w.input_types) shi_max_input_signals;
    sensor_input_signal_types =
        filled shi_max_input_signals shi_message_init.sensor_input_signal_types w.input_types;
    sensor_input_signal_statuses =
        filled shi_max_input_signals shi_message_init.sensor_input_signal_statuses w.input_statuses;
  }

  -- The message that the payload stands for: of each array as many elements as the message holds.
  abbrev pub message_of : ShiMessage
  message_of = record with_inputs {
    sensor_time_sync = w.time_sync;
    sensor_time_sync_offset_value = 0;
    num_valid_calibration_components = min (length w.components) shi_max_calibration_components;
    sensor_calibration_components =
        filled shi_max_calibration_components shi_message_init.sensor_calibration_components
          w.components;
    sensor_calibration_statuses =
        filled shi_max_calibration_components shi_message_init.sensor_calibration_statuses
          w.calibration_statuses;
    sensor_calibration_states =
        filled shi_max_calibration_components shi_message_init.sensor_calibration_states
          w.calibration_states;
  }

  size : 32 ≤ length serialize
  unfolding serialize serialize_interface_header pack_le32 pack_le64
  size = omega (
    arith,
    length-append w.operation_modes status,
    length-append w.input_types (w.input_statuses ++ w.time_sync ∷ calibrations),
    length-append w.input_statuses (w.time_sync ∷ calibrations),
  )

  behind_header : drop 24 serialize ≡ sections
  unfolding serialize serialize_interface_header pack_le32 pack_le64
  behind_header = refl

  header_read : IsInterfaceHeader h → parse_interface_header serialize ≡ ok h
  unfolding serialize
  header_read v =
      parse_interface_header-ok (serialize_interface_header h ++ sections) (omega (arith, size))
      ∙ ap ok (interface_header_at-serialize h sections v)

  header-IsShi : IsShi with_header
  header-IsShi = record {
    modes_size = refl;
    modes_count = omega arith;
    types_size = refl;
    statuses_size = refl;
    signals_count = omega arith;
    components_size = refl;
    calibrations_size = refl;
    states_size = refl;
    calibration_count = omega arith;
  }

  modes_filled : length with_modes.sensor_operation_modes ≡ shi_max_operation_modes
  modes_filled = length-filled shi_max_operation_modes _ w.operation_modes refl

  modes-IsShi : IsShi with_modes
  modes-IsShi = record {
    modes_size = modes_filled;
    modes_count = omega arith;
    types_size = refl;
    statuses_size = refl;
    signals_count = omega arith;
    components_size = refl;
    calibrations_size = refl;
    states_size = refl;
    calibration_count = omega arith;
  }

  status-IsShi : IsShi with_status
  status-IsShi = record {
    modes_size = modes_filled;
    modes_count = omega arith;
    types_size = refl;
    statuses_size = refl;
    signals_count = omega arith;
    components_size = refl;
    calibrations_size = refl;
    states_size = refl;
    calibration_count = omega arith;
  }

  inputs-IsShi : IsShi with_inputs
  inputs-IsShi = record {
    modes_size = modes_filled;
    modes_count = omega arith;
    types_size = length-filled shi_max_input_signals _ w.input_types refl;
    statuses_size = length-filled shi_max_input_signals _ w.input_statuses refl;
    signals_count = omega arith;
    components_size = refl;
    calibrations_size = refl;
    states_size = refl;
    calibration_count = omega arith;
  }

  sync-IsShi :
      IsShi
        (record with_inputs { sensor_time_sync = w.time_sync; sensor_time_sync_offset_value = 0 })
  sync-IsShi = record {
    modes_size = modes_filled;
    modes_count = omega arith;
    types_size = length-filled shi_max_input_signals _ w.input_types refl;
    statuses_size = length-filled shi_max_input_signals _ w.input_statuses refl;
    signals_count = omega arith;
    components_size = refl;
    calibrations_size = refl;
    states_size = refl;
    calibration_count = omega arith;
  }

  sections_read :
      (p : List ℕ)
      → drop 24 p ≡ sections
      → IsWireShi w
      → parse_operation_modes p 24 with_header ≡ ok (pos 0, message_of)
  sections_read p e0 v =
      let o1 = 24 + 1 + length w.operation_modes in
      let (_, _, e0') = at_cons p 24 _ _ e0 in
      let e1 = at_append p (24 + 1) (length w.operation_modes) w.operation_modes status e0' refl in
      let e2 : drop (o1 + 4) p ≡ inputs = drop-drop o1 4 p ∙ ap (λ (l : List ℕ). drop 4 l) e1 in
      let (_, _, e2') = at_cons p (o1 + 4) _ _ e2 in
      let n = length w.input_types in
      let o3 = o1 + 4 + 1 + n + n in
      let e3 =
        at_append p (o1 + 4 + 1 + n) n w.input_statuses (w.time_sync ∷ calibrations)
          (at_append p (o1 + 4 + 1) n w.input_types _ e2' refl) v.inputs in
      let (_, _, e4) = at_cons p o3 _ _ e3 in
      parse_operation_modes-read p 24 with_header header-IsShi w.operation_modes status e0
      ∙ parse_status-read p o1 with_modes modes-IsShi w.defect_recognised w.defect_reason
          w.supply_voltage w.temperature inputs e1
      ∙ parse_input_signals-read p (o1 + 4) with_status status-IsShi w.input_types w.input_statuses
          (w.time_sync ∷ calibrations) e2 v.inputs
      ∙ parse_time_sync-read p o3 with_inputs inputs-IsShi w.time_sync calibrations e3
      ∙ parse_calibration-read p (o3 + 1) _ sync-IsShi w.components w.calibration_statuses
          w.calibration_states rest e4 v.statuses v.states

  -- The payload of a header with its fields in range and of a report whose parallel arrays are of one
  -- length is parsed to a message with that header and that report, whatever follows and whatever the
  -- message held before. Of an array that is longer than the one of the message, as many elements are
  -- kept as the latter holds, and what follows is still read at its place.
  pub parse-report :
      (msg : ShiMessage)
      → IsInterfaceHeader h
      → IsWireShi w
      → parse (some serialize) msg ≡ ok (pos 0, message_of)
  unfolding parse
  parse-report msg v vw =
      rw (le→ltb (length serialize) shi_min_size size, header_read v)
        (sections_read serialize behind_header vw)
