-- ===== src/Parsers/Shi/Total.antt =====
-- The SHII parser reads only bytes of the payload, and what it reports fits its arrays.
use afi920_ros2_driver.Base.{
  lt→ltb, le→ltb, le→leb, lt→leb, ℤ, length, drop, length-drop, byte_at-ok, memcpy-ok,
  length-memcpy, Safe, ℕ, ◌+◌, ◌≤◌, min, ◌≡◌, refl, ◌∙◌, Option, none, some, List, arith,
}
use native.Mathlib.Decide.{dec_lt, dec_le}
use afi920_ros2_driver.Parsers.Iso.Header.{parse_interface_header-ok}
use afi920_ros2_driver.Parsers.Section.{with_count-Safe}
use afi920_ros2_driver.Parsers.ShiTypes.{
  ShiMessage, shi_max_operation_modes, shi_max_input_signals, shi_max_calibration_components,
  shi_message_init,
}
use afi920_ros2_driver.Parsers.Shi.{
  shi_min_size, parse_calibration, parse_time_sync, parse_input_signals, parse_status,
  parse_operation_modes, parse, shi_message_init,
}

-- The arrays have their sizes, and the counts stay within them.
pub record IsShi (m : ShiMessage) : Type 0 where
  pub modes_size : length m.sensor_operation_modes ≡ shi_max_operation_modes
  pub modes_count : m.num_valid_operation_modes ≤ shi_max_operation_modes
  pub types_size : length m.sensor_input_signal_types ≡ shi_max_input_signals
  pub statuses_size : length m.sensor_input_signal_statuses ≡ shi_max_input_signals
  pub signals_count : m.num_valid_input_signal_statuses ≤ shi_max_input_signals
  pub components_size : length m.sensor_calibration_components ≡ shi_max_calibration_components
  pub calibrations_size : length m.sensor_calibration_statuses ≡ shi_max_calibration_components
  pub states_size : length m.sensor_calibration_states ≡ shi_max_calibration_components
  pub calibration_count : m.num_valid_calibration_components ≤ shi_max_calibration_components

abbrev pub Fine : ℤ × ShiMessage → Type 0
Fine r = IsShi r.1

-- `n` elements stand behind the offset `k`.
room : (p : List ℕ) (k n : ℕ) → k + n ≤ length p → n ≤ length (drop k p)
room p k n h = omega (arith, length-drop {0} k p)

module _ (p : List ℕ) where
  parse_calibration-IsShi :
      (offset : ℕ) (msg : ShiMessage) → IsShi msg → Safe Fine (parse_calibration p offset msg)
  unfolding parse_calibration
  parse_calibration-IsShi offset msg v = with_count-Safe Fine p offset 3 _ _ _ v v λ n h.
      let count : ℕ = min n shi_max_calibration_components in
      let r0 = room p (offset + 1) count (omega arith) in
      let r1 = room p (offset + 1 + n) count (omega arith) in
      let r2 = room p (offset + 1 + n + n) count (omega arith) in
      let c0 : count ≤ length msg.sensor_calibration_components =
        omega (arith, v.components_size) in
      let c1 : count ≤ length msg.sensor_calibration_statuses =
        omega (arith, v.calibrations_size) in
      let c2 : count ≤ length msg.sensor_calibration_states = omega (arith, v.states_size) in
      rw (memcpy-ok _ _ count r0 c0, memcpy-ok _ _ count r1 c1, memcpy-ok _ _ count r2 c2)
        (record {
          modes_size = v.modes_size;
          modes_count = v.modes_count;
          types_size = v.types_size;
          statuses_size = v.statuses_size;
          signals_count = v.signals_count;
          components_size = length-memcpy _ _ count r0 c0 ∙ v.components_size;
          calibrations_size = length-memcpy _ _ count r1 c1 ∙ v.calibrations_size;
          states_size = length-memcpy _ _ count r2 c2 ∙ v.states_size;
          calibration_count = omega arith;
        })

  parse_time_sync-IsShi :
      (offset : ℕ) (msg : ShiMessage) → IsShi msg → Safe Fine (parse_time_sync p offset msg)
  unfolding parse_time_sync
  parse_time_sync-IsShi offset msg v = elim (dec_lt offset (length p)) [
    | yes h ↦
        rw (lt→leb (length p) offset h, byte_at-ok p offset h)
          (parse_calibration-IsShi (offset + 1) _ (record {
            modes_size = v.modes_size;
            modes_count = v.modes_count;
            types_size = v.types_size;
            statuses_size = v.statuses_size;
            signals_count = v.signals_count;
            components_size = v.components_size;
            calibrations_size = v.calibrations_size;
            states_size = v.states_size;
            calibration_count = v.calibration_count;
          }))
    | no h ↦ rw (le→leb (length p) offset (omega arith)) v
  ]

  parse_input_signals-IsShi :
      (offset : ℕ) (msg : ShiMessage) → IsShi msg → Safe Fine (parse_input_signals p offset msg)
  unfolding parse_input_signals
  parse_input_signals-IsShi offset msg v = with_count-Safe Fine p offset 2 _ _ _ v v λ n h.
      let count : ℕ = min n shi_max_input_signals in
      let r0 = room p (offset + 1) count (omega arith) in
      let r1 = room p (offset + 1 + n) count (omega arith) in
      let c0 : count ≤ length msg.sensor_input_signal_types = omega (arith, v.types_size) in
      let c1 : count ≤ length msg.sensor_input_signal_statuses = omega (arith, v.statuses_size) in
      rw (memcpy-ok _ _ count r0 c0, memcpy-ok _ _ count r1 c1)
        (parse_time_sync-IsShi (offset + 1 + n + n) _ (record {
          modes_size = v.modes_size;
          modes_count = v.modes_count;
          types_size = length-memcpy _ _ count r0 c0 ∙ v.types_size;
          statuses_size = length-memcpy _ _ count r1 c1 ∙ v.statuses_size;
          signals_count = omega arith;
          components_size = v.components_size;
          calibrations_size = v.calibrations_size;
          states_size = v.states_size;
          calibration_count = v.calibration_count;
        }))

  parse_status-IsShi :
      (offset : ℕ) (msg : ShiMessage) → IsShi msg → Safe Fine (parse_status p offset msg)
  unfolding parse_status
  parse_status-IsShi offset msg v = elim (dec_le (offset + 4) (length p)) [
    | yes h ↦
        rw
          (
            le→ltb (length p) (offset + 4) h,
            byte_at-ok p offset (omega arith),
            byte_at-ok p (offset + 1) (omega arith),
            byte_at-ok p (offset + 2) (omega arith),
            byte_at-ok p (offset + 3) (omega arith),
          )
          (parse_input_signals-IsShi (offset + 4) _ (record {
            modes_size = v.modes_size;
            modes_count = v.modes_count;
            types_size = v.types_size;
            statuses_size = v.statuses_size;
            signals_count = v.signals_count;
            components_size = v.components_size;
            calibrations_size = v.calibrations_size;
            states_size = v.states_size;
            calibration_count = v.calibration_count;
          }))
    | no h ↦ rw (lt→ltb (length p) (offset + 4) (omega arith)) v
  ]

  parse_operation_modes-IsShi :
      (offset : ℕ) (msg : ShiMessage) → IsShi msg → Safe Fine (parse_operation_modes p offset msg)
  unfolding parse_operation_modes
  parse_operation_modes-IsShi offset msg v = with_count-Safe Fine p offset 1 _ _ _ v v λ n h.
      let count : ℕ = min n shi_max_operation_modes in
      let r = room p (offset + 1) count (omega arith) in
      let c : count ≤ length msg.sensor_operation_modes = omega (arith, v.modes_size) in
      rw (memcpy-ok _ _ count r c) (
        parse_status-IsShi (offset + 1 + n) _ (record {
          modes_size = length-memcpy _ _ count r c ∙ v.modes_size;
          modes_count = omega arith;
          types_size = v.types_size;
          statuses_size = v.statuses_size;
          signals_count = v.signals_count;
          components_size = v.components_size;
          calibrations_size = v.calibrations_size;
          states_size = v.states_size;
          calibration_count = v.calibration_count;
        }))

pub shi_message_init-IsShi : IsShi shi_message_init
shi_message_init-IsShi = record {
  modes_size = refl;
  modes_count = omega arith;
  types_size = refl;
  statuses_size = refl;
  signals_count = omega arith;
  components_size = refl;
  calibrations_size = refl;
  states_size = refl;
  calibration_count = omega arith;
}

-- Whatever the payload announces, the SHII parser reads only bytes of it and writes only within the
-- arrays of the message: from a message with arrays of the declared sizes and counts within them it
-- leaves such a message, parsed or not.
pub parse-IsShi :
    (payload : Option (List ℕ)) (msg : ShiMessage) → IsShi msg → Safe Fine (parse payload msg)
unfolding parse
parse-IsShi none msg v = v
parse-IsShi (some p) msg v = elim (dec_le shi_min_size (length p)) [
  | yes h ↦
      rw (le→ltb (length p) shi_min_size h, parse_interface_header-ok p (omega arith))
        (parse_operation_modes-IsShi p 24 _ (record {
          modes_size = refl;
          modes_count = omega arith;
          types_size = refl;
          statuses_size = refl;
          signals_count = omega arith;
          components_size = refl;
          calibrations_size = refl;
          states_size = refl;
          calibration_count = omega arith;
        }))
  | no h ↦ rw (lt→ltb (length p) shi_min_size (omega arith)) v
]
