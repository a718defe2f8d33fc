-- ===== src/Node/Samples.antt =====
-- Datagrams for the runs of the node.
use afi920_ros2_driver.Base.{ℕ, List, [], ◌∷◌, ◌++◌}
use afi920_ros2_driver.Parsers.Rdi.Layout.{WireDetection}
use afi920_ros2_driver.Someip.{
  SomeipHeader, someip_service_id, event_rdi, someip_msg_type_notification,
}
use afi920_ros2_driver.Node.Types.{Clock}

-- A frame around the payload 1, 2 of the RDI stream, without its last byte.
abbrev pub front : List ℕ
front =
    218 ∷ 242 ∷ 119 ∷ 235 ∷ 108 ∷ 142 ∷ 91 ∷ 185 ∷ 0 ∷ 0 ∷ 0 ∷ 2 ∷ 0 ∷ 0 ∷ 0 ∷ 7 ∷ 96 ∷ 0 ∷ 128 ∷ 2
    ∷ 1 ∷ []

abbrev pub whole : List ℕ
whole = front ++ 2 ∷ []

abbrev pub clock : Clock
clock = record { checked = 10; started = 11; received = 12; stamp = 13 }

abbrev pub event_header : SomeipHeader
event_header = record {
  service_id = someip_service_id;
  method_id = event_rdi;
  length = 64;
  client_id = 1;
  session_id = 77;
  protocol_version = 1;
  interface_version = 1;
  message_type = someip_msg_type_notification;
  return_code = 0;
}

abbrev pub echo : WireDetection
echo = record {
  existence_probability = 80;
  detection_id = 7;
  object_id_reference = 65535;
  timestamp_difference = 0x3f80_0000;
  radar_cross_section = 0x4120_0000;
  signal_to_noise_ratio = 0x41a0_0000;
  ambiguity_grouping_id = 3;
  radial_distance = 0x4248_0000;
  azimuth = 0x3dcc_cccd;
  elevation = 0xbdcc_cccd;
  radial_distance_error = 1;
  azimuth_error = 2;
  elevation_error = 3;
  velocity = 0xc120_0000;
  velocity_error = 5;
}
