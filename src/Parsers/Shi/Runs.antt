-- ===== src/Parsers/Shi/Runs.antt =====
-- The SHII theorems at concrete payloads.
use afi920_ros2_driver.Base.{pos, replicate, ok, ℕ, ◌≡◌, refl, some, List, [], ◌∷◌, ◌++◌, arith}
use afi920_ros2_driver.Parsers.ShiTypes.{shi_message_init}
use afi920_ros2_driver.Parsers.Shi.{parse}
use afi920_ros2_driver.Parsers.Iso.{zero_interface_header}
use afi920_ros2_driver.Parsers.Shi.RoundTrip.{WireShi, serialize, message_of, parse-report}

-- A payload that announces 255 operation modes and holds eight bytes.
abbrev greedy : List ℕ
greedy = replicate 24 0 ++ 255 ∷ replicate 8 1

-- Five input signals, of which the message holds four, and no calibration.
abbrev report : WireShi
report = record {
  operation_modes = 1 ∷ 4 ∷ [];
  defect_recognised = 1;
  defect_reason = 2;
  supply_voltage = 3;
  temperature = 4;
  input_types = 1 ∷ 2 ∷ 3 ∷ 4 ∷ 5 ∷ [];
  input_statuses = 6 ∷ 7 ∷ 8 ∷ 9 ∷ 10 ∷ [];
  time_sync = 1;
  components = [];
  calibration_statuses = [];
  calibration_states = [];
}

parse-report_example :
    parse (some (serialize zero_interface_header report (9 ∷ []))) shi_message_init
    ≡ ok (pos 0, message_of zero_interface_header report (9 ∷ []))
parse-report_example =
    parse-report zero_interface_header report (9 ∷ []) shi_message_init (omega arith)
      (record { inputs = refl; statuses = refl; states = refl })
