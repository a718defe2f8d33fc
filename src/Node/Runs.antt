-- ===== src/Node/Runs.antt =====
-- The theorems on the node at concrete frames and datagrams.
use afi920_ros2_driver.Base.{
  length, drop, ok, byte_at, ℕ, ◌≤◌, ◌≡◌, refl, ◌↔◌, true, false, some, List, [], ◌∷◌, arith,
}
use afi920_ros2_driver.Node.Datagram.{datagram}
use afi920_ros2_driver.Parsers.Iso.Header.{serialize_interface_header}
use afi920_ros2_driver.Someip.{SomeipHeader, event_shii}
use afi920_ros2_driver.Wire.{join_be32, unpack_be32, pack_le32, pack_le64}
use afi920_ros2_driver.E2e.{
  unpack_be64, join_be64, e2e_parse, e2e_validate, e2e_data_id_rdi, e2e_header_size, e2e_crc64_xz,
  e2e_crc64_xz_update, crc_bytes, E2eHeader, e2e_data_id_shii,
}
use afi920_ros2_driver.E2e.Header.{header_at}
use afi920_ros2_driver.Parsers.Iso.{zero_interface_header}
use afi920_ros2_driver.Node.Types.{publish_health, Node, node_init}
use afi920_ros2_driver.Node.Gate.{consume_e2e_header, e2e_status, is_too_short, is_crc_mismatch}
use afi920_ros2_driver.Node.Gate.Strict.{MetadataOk, CrcOk, passed, consume_strict_iff}
use afi920_ros2_driver.Parsers.Shi.RoundTrip as Shii
use afi920_ros2_driver.Node.Shi.{process_shi_datagram}
use afi920_ros2_driver.Node.Shi.Stream.{health_of, process_shi_datagram_delivers}
use afi920_ros2_driver.Node.Parameters.{min_range, e2e_strict, config_of, on_parameter_change}
use afi920_ros2_driver.Node.Parameters.Batches.{IsConfigured, on_parameter_change-batches}
use afi920_ros2_driver.Node.Samples.{whole, clock, event_header}

abbrev taken : List ℕ × E2eHeader
taken = (1 ∷ 2 ∷ [], header_at whole)

consume_strict_iff_example :
    (consume_e2e_header true true whole e2e_data_id_rdi ≡ ok (some taken)) ↔ (
      (e2e_header_size ≤ length whole)
      × MetadataOk whole e2e_data_id_rdi
      × CrcOk whole
      × (taken ≡ (drop e2e_header_size whole, header_at whole)))
consume_strict_iff_example = consume_strict_iff whole e2e_data_id_rdi taken

whole_passes : consume_e2e_header true true whole e2e_data_id_rdi ≡ passed whole
unfolding consume_e2e_header e2e_status is_too_short is_crc_mismatch e2e_validate e2e_parse
    unpack_be64 unpack_be32 byte_at e2e_crc64_xz e2e_crc64_xz_update crc_bytes join_be64 join_be32
whole_passes = refl

abbrev configured_node : Node
configured_node = record node_init { pc_builder = some (config_of node_init) }

on_parameter_change-batches_example :
    IsConfigured (on_parameter_change configured_node (min_range 5 ∷ e2e_strict true ∷ [])).1
    × ((on_parameter_change configured_node (min_range 5 ∷ e2e_strict true ∷ min_range 7 ∷ [])).1
        ≡ (on_parameter_change
            (on_parameter_change configured_node (min_range 5 ∷ e2e_strict true ∷ [])).1
            (min_range 7 ∷ [])).1)
on_parameter_change-batches_example =
    on_parameter_change-batches configured_node (min_range 5 ∷ e2e_strict true ∷ [])
      (min_range 7 ∷ []) refl

abbrev report : Shii.WireShi
report = record {
  operation_modes = 1 ∷ 4 ∷ [];
  defect_recognised = 1;
  defect_reason = 2;
  supply_voltage = 3;
  temperature = 4;
  input_types = 1 ∷ 2 ∷ 3 ∷ 4 ∷ 5 ∷ [];
  input_statuses = 6 ∷ 7 ∷ 8 ∷ 9 ∷ 10 ∷ [];
  time_sync = 1;
  components = 1 ∷ [];
  calibration_statuses = 2 ∷ [];
  calibration_states = 3 ∷ [];
}

abbrev health_event : SomeipHeader
health_event = record event_header { method_id = event_shii }

process_shi_datagram_delivers_example :
    process_shi_datagram node_init clock
      (datagram health_event 7 e2e_data_id_shii (Shii.serialize zero_interface_header report []))
    ≡ ok (
      record node_init { first_shi = false },
      publish_health (health_of zero_interface_header report [] node_init 13) ∷ [],
    )
unfolding Shii.serialize serialize_interface_header pack_le32 pack_le64
process_shi_datagram_delivers_example =
    process_shi_datagram_delivers zero_interface_header report [] node_init clock health_event 7
      refl (record { fields = omega arith; service = refl; event = refl; notification = refl })
      (omega arith) (omega arith) (omega arith) (omega arith)
      (record { inputs = refl; statuses = refl; states = refl })
