-- ===== src/Node/Shi/Stream.antt =====
-- An SHII message that a sensor sends is published as it was sent.
use afi920_ros2_driver.Base.{
  if◌then◌else◌, le→ltb, length, take, replicate, All, length-replicate, take_all, ok, ℕ, ◌^◌, ◌<◌,
  min, max, ◌≡◌, refl, sym, ap, ◌∙◌, Bool, true, false, not, some, List, [], ◌∷◌, arith,
}
use afi920_ros2_driver.E2e.{e2e_data_id_shii}
use afi920_ros2_driver.Wire.{IsByte}
use afi920_ros2_driver.Someip.{SomeipHeader, event_shii, someip_header_size}
use afi920_ros2_driver.Parsers.Shi.Sections.{filled, length-filled}
use afi920_ros2_driver.Parsers.ShiTypes.{
  shi_max_operation_modes, shi_max_input_signals, shi_max_calibration_components,
}
use afi920_ros2_driver.Node.Types.{HealthInfo, publish_health}
use afi920_ros2_driver.Node.Shi.{health_info}
use afi920_ros2_driver.Parsers.Iso.{InterfaceHeader}
use afi920_ros2_driver.Parsers.Iso.Header.{IsInterfaceHeader}
use afi920_ros2_driver.Parsers.ShiTypes.{shi_message_init}
use afi920_ros2_driver.Parsers.Shi.RoundTrip as Payload
use afi920_ros2_driver.E2e.Protect.{header_of}
use afi920_ros2_driver.Node.Types.{Node, Clock}
use afi920_ros2_driver.Node.Datagram.{
  IsEventOf, accepted-header, datagram, datagram-size, drop-datagram, deserialize-datagram,
}
use afi920_ros2_driver.Node.Gate.{is_zero}
use afi920_ros2_driver.Node.Gate.Strict.{consume-protect}
use afi920_ros2_driver.Node.Shi.{
  on_shi_message, shi_payload_received, process_shi_datagram, event_shii, e2e_data_id_shii,
  someip_header_size,
}

-- The datagram passes the checks of both headers.
process-datagram :
    (n : Node) (clock : Clock) (h : SomeipHeader) (counter : ℕ) (iso : List ℕ)
    → IsEventOf event_shii h
    → counter < 2 ^ 32
    → length iso < 2 ^ 32
    → All IsByte iso
    → process_shi_datagram n clock (datagram h counter e2e_data_id_shii iso)
      ≡ shi_payload_received n clock (some (iso, header_of counter e2e_data_id_shii iso))
unfolding process_shi_datagram
process-datagram n clock h counter iso v hc hl hb =
    let (valid, event, _) = accepted-header event_shii h v in
    rw (
      le→ltb (length (datagram h counter e2e_data_id_shii iso)) someip_header_size
          (datagram-size h counter e2e_data_id_shii iso),
      drop-datagram h counter e2e_data_id_shii iso,
      deserialize-datagram h counter e2e_data_id_shii iso v.fields,
      valid,
      event,
      consume-protect n.validate_e2e n.e2e_strict counter e2e_data_id_shii iso hc (omega arith) hl
          hb,
    )

-- Where the publisher exists, the callback does not return early.
not_returned : {A : Type 0} (b : Bool) (x y : A) → b ≡ true → (if not b then x else y) ≡ y
not_returned b x y e = rw e refl

-- An array of the message: the first elements of the report, and zeros behind them.
abbrev pub padded : ℕ → List ℕ → List ℕ
padded max xs = filled max (replicate max 0) xs

take-padded : (max : ℕ) (xs : List ℕ) → take max (padded max xs) ≡ padded max xs
take-padded max xs =
    take_all max (padded max xs)
      (sym (length-filled max (replicate max 0) xs (length-replicate {A = ℕ} max 0)))

module _ (header : InterfaceHeader) (w : Payload.WireShi) (rest : List ℕ) where
  -- The message that the report stands for: the header's identification, and the report's own fields,
  -- of each array as many elements as the interface allows.
  abbrev pub health_of : Node → ℕ → HealthInfo
  health_of n stamp = record {
    stamp = stamp;
    frame_id = n.frame_id;
    sensor_id = header.sensor_id;
    message_counter = header.message_counter;
    data_qualifier = header.data_qualifier;
    num_operation_modes = min (length w.operation_modes) shi_max_operation_modes;
    operation_modes = padded shi_max_operation_modes w.operation_modes;
    defect_recognised = w.defect_recognised;
    defect_reason = w.defect_reason;
    supply_voltage_status = w.supply_voltage;
    temperature_status = w.temperature;
    num_input_signal_statuses = min (length w.input_types) shi_max_input_signals;
    input_signal_types = padded shi_max_input_signals w.input_types;
    input_signal_statuses = padded shi_max_input_signals w.input_statuses;
    time_sync_status = w.time_sync;
    time_sync_offset = 0;
    num_calibration_components = min (length w.components) shi_max_calibration_components;
    calibration_components = padded shi_max_calibration_components w.components;
    calibration_statuses = padded shi_max_calibration_components w.calibration_statuses;
    calibration_states = padded shi_max_calibration_components w.calibration_states;
    timestamp_measurement_ns = header.timestamp;
  }

  health_of-message :
      (n : Node) (stamp : ℕ)
      → health_info n stamp (Payload.message_of header w rest) ≡ health_of n stamp
  unfolding health_info
  health_of-message n stamp = λ i. record (health_of n stamp) {
    operation_modes = take-padded shi_max_operation_modes w.operation_modes i;
    input_signal_types = take-padded shi_max_input_signals w.input_types i;
    input_signal_statuses = take-padded shi_max_input_signals w.input_statuses i;
    calibration_components = take-padded shi_max_calibration_components w.components i;
    calibration_statuses = take-padded shi_max_calibration_components w.calibration_statuses i;
    calibration_states = take-padded shi_max_calibration_components w.calibration_states i;
  }

  callback :
      (n : Node) (stamp : ℕ)
      → n.pub_shi ≡ true
      → on_shi_message n (Payload.message_of header w rest) stamp ≡ (
        record n { first_shi = false; last_shi_counter = header.message_counter },
        publish_health (health_of n stamp) ∷ [],
      )
  unfolding on_shi_message
  callback n stamp on =
      not_returned n.pub_shi _ _ on
      ∙ ap
          (λ (m : HealthInfo). (
            record n { first_shi = false; last_shi_counter = header.message_counter },
            publish_health m ∷ [],
          ))
          (health_of-message n stamp)

  -- A sensor sends a report: a SOME/IP header of an SHII event, an E2E header with the CRC of what
  -- follows, and the payload, all bytes and fields in range. Then a node that publishes the health
  -- publishes, whatever the flags of the check, one message with the identification of the header and
  -- with every field of the report; of each array the first elements, as many as the interface allows,
  -- with zeros behind them. In the node only the counter of the stream changes.
  pub process_shi_datagram_delivers :
      (n : Node) (clock : Clock) (h : SomeipHeader) (counter : ℕ)
      → n.pub_shi ≡ true
      → IsEventOf event_shii h
      → counter < 2 ^ 32
      → length (Payload.serialize header w rest) < 2 ^ 32
      → All IsByte (Payload.serialize header w rest)
      → IsInterfaceHeader header
      → Payload.IsWireShi w
      → process_shi_datagram n clock
          (datagram h counter e2e_data_id_shii (Payload.serialize header w rest))
        ≡ ok (
          record n { first_shi = false; last_shi_counter = header.message_counter },
          publish_health (health_of n clock.stamp) ∷ [],
        )
  unfolding shi_payload_received is_zero
  process_shi_datagram_delivers n clock h counter on v hc hl hb hh hw =
      process-datagram n clock h counter (Payload.serialize header w rest) v hc hl hb
      ∙ rw (Payload.parse-report header w rest shi_message_init hh hw)
          (ap ok (callback n clock.stamp on))
