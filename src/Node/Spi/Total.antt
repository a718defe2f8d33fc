-- ===== src/Node/Spi/Total.antt =====
-- No SPI datagram makes the driver read or write past the end of what it holds.
use afi920_ros2_driver.Base.{
  if◌then◌else◌, lt→ltb, le→ltb, Bool-cases, length, take, drop, All, length-take, ok, ◌>>=◌, Safe,
  Safe-bind, ℕ, ◌≤◌, min, ◌≡◌, refl, inl, inr, Bool, true, false, Option, none, some, List, [], ◌∷◌,
  ◌++◌, arith,
}
use native.Mathlib.Decide.{dec_le}
use afi920_ros2_driver.Node.Gate.{consume_e2e_header}
use afi920_ros2_driver.Someip.{someip_header_size}
use afi920_ros2_driver.E2e.{E2eHeader, e2e_data_id_spi, e2e_header_size}
use afi920_ros2_driver.Parsers.SpiTypes.{
  SpiMessage, spi_max_fov_segments, spi_message_init, spi_max_object_types, spi_max_ref_targets,
}
use afi920_ros2_driver.Parsers.Spi.{parse}
use afi920_ros2_driver.Parsers.Spi.Total.{IsSpi, WellFilled, parse-IsSpi, spi_message_init-IsSpi}
use afi920_ros2_driver.Someip.Header.{someip_deserialize-ok}
use afi920_ros2_driver.E2e.Header as Header
use afi920_ros2_driver.Node.Types.{
  Node, Event, Clock, publish_pointcloud, publish_detection_array, publish_marker, publish_health,
  publish_performance, send_transform, SensorPerformance, Transform, someip_header_unset,
}
use afi920_ros2_driver.Node.Gate.Strict.{consume-cases}
use afi920_ros2_driver.Node.Spi.{
  sensor_performance, on_spi_message, spi_payload_received, process_spi_datagram, SpiMessage,
  E2eHeader, someip_header_size, SensorPerformance, spi_max_fov_segments, Transform,
  spi_message_init, consume_e2e_header, spi_max_object_types, spi_max_ref_targets,
  someip_header_unset,
}

-- A list of the message has as many elements as the count of the sensor says.
pub record IsPerformance (msg : SpiMessage) (sp : SensorPerformance) : Type 0 where
  pub fov_size : length sp.fov_segments ≡ msg.num_fov_segments
  pub objects_size : length sp.recognisable_objects ≡ msg.num_recognisable_object_types
  pub targets_size : length sp.reference_targets ≡ msg.num_reference_target_types

-- Each list is at most as long as the interface allows.
pub record IsBounded (sp : SensorPerformance) : Type 0 where
  pub few_segments : length sp.fov_segments ≤ spi_max_fov_segments
  pub few_objects : length sp.recognisable_objects ≤ spi_max_object_types
  pub few_targets : length sp.reference_targets ≤ spi_max_ref_targets

-- Performance messages within these bounds and transforms only.
abbrev pub IsSpiEvent : Event → Type 0
IsSpiEvent (publish_pointcloud b f stamp) = ⊥
IsSpiEvent (publish_detection_array b f stamp ns) = ⊥
IsSpiEvent (publish_marker n stamp) = ⊥
IsSpiEvent (publish_health hi) = ⊥
IsSpiEvent (publish_performance sp) = IsBounded sp
IsSpiEvent (send_transform tf) = Unit

-- The members that this stream leaves alone, and what it publishes.
abbrev pub SpiSoundFrom : Node → Node × List Event → Type 0
SpiSoundFrom n r =
    (r.0 ≡ record n { first_spi = r.0.first_spi; last_spi_counter = r.0.last_spi_counter })
    × All IsSpiEvent r.1

length-take_counted :
    {A : Type 0} (k m : ℕ) (xs : List A) → length xs ≡ m → k ≤ m → length (take (min k m) xs) ≡ k
length-take_counted k m xs e h = omega (arith, length-take (min k m) xs)

sensor_performance-IsPerformance :
    (n : Node) (stamp : ℕ) (msg : SpiMessage)
    → IsSpi msg
    → IsPerformance msg (sensor_performance n stamp msg)
unfolding sensor_performance
sensor_performance-IsPerformance n stamp msg v = record {
  fov_size =
      length-take_counted msg.num_fov_segments spi_max_fov_segments msg.fov_segments v.fov_size
        v.fov_count;
  objects_size =
      length-take_counted msg.num_recognisable_object_types spi_max_object_types
        msg.recognisable_object_types v.objects_size v.objects_count;
  targets_size =
      length-take_counted msg.num_reference_target_types spi_max_ref_targets
        msg.reference_target_types v.targets_size v.targets_count;
}

sensor_performance-IsBounded :
    (n : Node) (stamp : ℕ) (msg : SpiMessage)
    → IsSpi msg
    → IsBounded (sensor_performance n stamp msg)
sensor_performance-IsBounded n stamp msg v =
    let p = sensor_performance-IsPerformance n stamp msg v in
    record {
      few_segments = omega (arith, p.fov_size, v.fov_count);
      few_objects = omega (arith, p.objects_size, v.objects_count);
      few_targets = omega (arith, p.targets_size, v.targets_count);
    }

on_spi_message-SpiSoundFrom :
    (n : Node) (msg : SpiMessage) (stamp : ℕ)
    → IsSpi msg
    → SpiSoundFrom n (on_spi_message n msg stamp)
unfolding on_spi_message sensor_performance
on_spi_message-SpiSoundFrom n msg stamp v = elim (Bool-cases n.pub_spi) [
  | inl e ↦ rw e (refl, events n.tf_broadcaster _)
  | inr e ↦ rw e (refl, tt)
]
  where
    events :
        (b : Bool) (tf : Transform)
        → All IsSpiEvent (
            (if b then send_transform tf ∷ [] else [])
            ++ publish_performance (sensor_performance n stamp msg) ∷ [])
    events true tf = (tt, (sensor_performance-IsBounded n stamp msg v, tt))
    events false tf = (sensor_performance-IsBounded n stamp msg v, tt)

parsed-SpiSoundFrom :
    (n : Node) (stamp : ℕ) (b : Bool) (msg : SpiMessage)
    → IsSpi msg
    → SpiSoundFrom n (if b then on_spi_message n msg stamp else (n, []))
parsed-SpiSoundFrom n stamp true msg v = on_spi_message-SpiSoundFrom n msg stamp v
parsed-SpiSoundFrom n stamp false msg v = (refl, tt)

spi_payload_received-SpiSoundFrom :
    (n : Node) (clock : Clock) (consumed : Option (List ℕ × E2eHeader))
    → Safe (SpiSoundFrom n) (spi_payload_received n clock consumed)
unfolding spi_payload_received
spi_payload_received-SpiSoundFrom n clock none = (refl, tt)
spi_payload_received-SpiSoundFrom n clock (some (p, e2e)) =
    Safe-bind WellFilled (SpiSoundFrom n) (parse (some p) spi_message_init) _
      (parse-IsSpi (some p) spi_message_init spi_message_init-IsSpi)
      (λ (rc, msg) v. parsed-SpiSoundFrom n clock.stamp _ msg v)

-- Whatever datagram comes, no byte past it is read, and nothing but the counter of the stream changes
-- in the node; what is published is at most the transform and a performance message with at most 16
-- segments, object types and targets.
pub process_spi_datagram-SpiSoundFrom :
    (n : Node) (clock : Clock) (datagram : List ℕ)
    → Safe (SpiSoundFrom n) (process_spi_datagram n clock datagram)
unfolding process_spi_datagram
process_spi_datagram-SpiSoundFrom n clock datagram =
    elim (dec_le someip_header_size (length datagram)) [
      | yes l ↦
          rw
            (
              le→ltb (length datagram) someip_header_size l,
              someip_deserialize-ok datagram someip_header_unset l,
            )
            (accepted _)
      | no l ↦ rw (lt→ltb (length datagram) someip_header_size (omega arith)) (refl, tt)
    ]
  where
    rest : List ℕ
    rest = drop someip_header_size datagram

    accepted :
        (refused : Bool)
        → Safe (SpiSoundFrom n) (
            if refused
            then ok (n, [])
            else consume_e2e_header n.validate_e2e n.e2e_strict rest e2e_data_id_spi
              >>= spi_payload_received n clock)
    accepted true = (refl, tt)
    accepted false = elim (consume-cases rest e2e_data_id_spi n.validate_e2e n.e2e_strict) [
      | inl e ↦ rw e (spi_payload_received-SpiSoundFrom n clock none)
      | inr (_, e) ↦ rw e (
          spi_payload_received-SpiSoundFrom n clock
            (some (drop e2e_header_size rest, Header.header_at rest)))
    ]
