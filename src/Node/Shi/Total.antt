-- ===== src/Node/Shi/Total.antt =====
-- No SHII datagram makes the driver read or write past the end of what it holds.
use afi920_ros2_driver.Base.{
  if◌then◌else◌, lt→ltb, le→ltb, Bool-cases, length, take, drop, All, length-take, ok, ◌>>=◌, Safe,
  Safe-bind, ℕ, ◌≤◌, ◌≡◌, refl, inl, inr, Bool, true, false, Option, none, some, List, [], arith,
}
use native.Mathlib.Decide.{dec_le}
use afi920_ros2_driver.Node.Gate.{consume_e2e_header}
use afi920_ros2_driver.Someip.{someip_header_size}
use afi920_ros2_driver.E2e.{E2eHeader, e2e_data_id_shii, e2e_header_size}
use afi920_ros2_driver.Parsers.ShiTypes.{
  ShiMessage, shi_message_init, shi_max_operation_modes, shi_max_input_signals,
  shi_max_calibration_components,
}
use afi920_ros2_driver.Parsers.Shi.{parse}
use afi920_ros2_driver.Parsers.Shi.Total.{IsShi, Fine, parse-IsShi, shi_message_init-IsShi}
use afi920_ros2_driver.Someip.Header.{someip_deserialize-ok}
use afi920_ros2_driver.E2e.Header as Header
use afi920_ros2_driver.Node.Types.{
  Node, Event, Clock, HealthInfo, publish_pointcloud, publish_detection_array, publish_marker,
  publish_health, someip_header_unset, publish_performance, send_transform,
}
use afi920_ros2_driver.Node.Gate.Strict.{consume-cases}
use afi920_ros2_driver.Node.Shi.{
  health_info, on_shi_message, shi_payload_received, process_shi_datagram, E2eHeader,
  someip_header_size, consume_e2e_header, someip_header_unset,
}

-- The arrays of the health message have their sizes, and its counts stay within them.
pub record IsHealth (hi : HealthInfo) : Type 0 where
  pub modes_size : length hi.operation_modes ≡ shi_max_operation_modes
  pub modes_count : hi.num_operation_modes ≤ shi_max_operation_modes
  pub types_size : length hi.input_signal_types ≡ shi_max_input_signals
  pub statuses_size : length hi.input_signal_statuses ≡ shi_max_input_signals
  pub signals_count : hi.num_input_signal_statuses ≤ shi_max_input_signals
  pub components_size : length hi.calibration_components ≡ shi_max_calibration_components
  pub calibrations_size : length hi.calibration_statuses ≡ shi_max_calibration_components
  pub states_size : length hi.calibration_states ≡ shi_max_calibration_components
  pub calibration_count : hi.num_calibration_components ≤ shi_max_calibration_components

-- Health messages only.
abbrev pub IsHealthEvent : Event → Type 0
IsHealthEvent (publish_pointcloud b f stamp) = ⊥
IsHealthEvent (publish_detection_array b f stamp ns) = ⊥
IsHealthEvent (publish_marker n stamp) = ⊥
IsHealthEvent (publish_health hi) = IsHealth hi
IsHealthEvent (publish_performance sp) = ⊥
IsHealthEvent (send_transform tf) = ⊥

-- The members that this stream leaves alone, and what it publishes.
abbrev pub SoundFrom : Node → Node × List Event → Type 0
SoundFrom n r =
    (r.0 ≡ record n { first_shi = r.0.first_shi; last_shi_counter = r.0.last_shi_counter })
    × All IsHealthEvent r.1

length-take_all : (n : ℕ) (xs : List ℕ) → length xs ≡ n → length (take n xs) ≡ n
length-take_all n xs e = omega (arith, length-take n xs)

health_info-IsHealth :
    (n : Node) (stamp : ℕ) (msg : ShiMessage) → IsShi msg → IsHealth (health_info n stamp msg)
unfolding health_info
health_info-IsHealth n stamp msg v = record {
  modes_size = length-take_all shi_max_operation_modes msg.sensor_operation_modes v.modes_size;
  modes_count = v.modes_count;
  types_size = length-take_all shi_max_input_signals msg.sensor_input_signal_types v.types_size;
  statuses_size =
      length-take_all shi_max_input_signals msg.sensor_input_signal_statuses v.statuses_size;
  signals_count = v.signals_count;
  components_size =
      length-take_all shi_max_calibration_components msg.sensor_calibration_components
        v.components_size;
  calibrations_size =
      length-take_all shi_max_calibration_components msg.sensor_calibration_statuses
        v.calibrations_size;
  states_size =
      length-take_all shi_max_calibration_components msg.sensor_calibration_states v.states_size;
  calibration_count = v.calibration_count;
}

on_shi_message-SoundFrom :
    (n : Node) (msg : ShiMessage) (stamp : ℕ) → IsShi msg → SoundFrom n (on_shi_message n msg stamp)
unfolding on_shi_message
on_shi_message-SoundFrom n msg stamp v = elim (Bool-cases n.pub_shi) [
  | inl e ↦ rw e (refl, (health_info-IsHealth _ stamp msg v, tt))
  | inr e ↦ rw e (refl, tt)
]

parsed-SoundFrom :
    (n : Node) (stamp : ℕ) (b : Bool) (msg : ShiMessage)
    → IsShi msg
    → SoundFrom n (if b then on_shi_message n msg stamp else (n, []))
parsed-SoundFrom n stamp true msg v = on_shi_message-SoundFrom n msg stamp v
parsed-SoundFrom n stamp false msg v = (refl, tt)

shi_payload_received-SoundFrom :
    (n : Node) (clock : Clock) (consumed : Option (List ℕ × E2eHeader))
    → Safe (SoundFrom n) (shi_payload_received n clock consumed)
unfolding shi_payload_received
shi_payload_received-SoundFrom n clock none = (refl, tt)
shi_payload_received-SoundFrom n clock (some (p, e2e)) =
    Safe-bind Fine (SoundFrom n) (parse (some p) shi_message_init) _
      (parse-IsShi (some p) shi_message_init shi_message_init-IsShi)
      (λ (rc, msg) v. parsed-SoundFrom n clock.stamp _ msg v)

-- Whatever datagram comes, no byte past it is read, and nothing but the counter of the stream changes
-- in the node; what is published is a health message whose counts stay within its arrays.
pub process_shi_datagram-SoundFrom :
    (n : Node) (clock : Clock) (datagram : List ℕ)
    → Safe (SoundFrom n) (process_shi_datagram n clock datagram)
unfolding process_shi_datagram
process_shi_datagram-SoundFrom n clock datagram =
    elim (dec_le someip_header_size (length datagram)) [
      | yes l ↦
          rw
            (
              le→ltb (length datagram) someip_header_size l,
              someip_deserialize-ok datagram someip_header_unset l,
            )
            (accepted _)
      | no l ↦ rw (lt→ltb (length datagram) someip_header_size (omega arith)) (refl, tt)
    ]
  where
    rest : List ℕ
    rest = drop someip_header_size datagram

    accepted :
        (refused : Bool)
        → Safe (SoundFrom n) (
            if refused
            then ok (n, [])
            else consume_e2e_header n.validate_e2e n.e2e_strict rest e2e_data_id_shii
              >>= shi_payload_received n clock)
    accepted true = (refl, tt)
    accepted false = elim (consume-cases rest e2e_data_id_shii n.validate_e2e n.e2e_strict) [
      | inl e ↦ rw e (shi_payload_received-SoundFrom n clock none)
      | inr (_, e) ↦ rw e (
          shi_payload_received-SoundFrom n clock
            (some (drop e2e_header_size rest, Header.header_at rest)))
    ]
