-- ===== src/Node/Start.antt =====
-- The constructor and the destructor of `Afi920Node` in src/afi920_node.cpp, with the parameters that
-- they declare and read. What ROS makes of the declared defaults, and what the system answers to each
-- call, is an argument; a port is a number that is not negative.
pub mod Started
mod Runs
use afi920_ros2_driver.Node.Types.{Node, node_init}
use afi920_ros2_driver.Base.{
  ◌==◌, if◌then◌else◌, ℤ, is_negative, ℕ, ◌%◌, ◌^◌, Bool, true, false, not, ◌&&◌, ◌||◌, Option,
  none, some, List, [], ◌∷◌,
}
use afi920_ros2_driver.Config.Text.{codes}
use afi920_ros2_driver.Config.{
  ConfigSystem, Configured, configure_streams, LocalSystem, detect_local_ip,
}
use afi920_ros2_driver.Transport.Tcp as Tcp
use afi920_ros2_driver.Transport.Udp as Udp

pub record Parameters : Type 0 where
  pub sensor_ip : List ℕ
  pub config_port : ℕ
  pub host_ip : List ℕ
  pub data_port : ℕ
  pub shi_port : ℕ
  pub spi_port : ℕ
  pub frame_id : List ℕ
  pub parent_frame_id : List ℕ
  pub publish_tf : Bool
  pub min_range : ℕ
  pub max_range : ℕ
  pub min_snr : ℕ
  pub min_existence_probability : ℕ
  pub publish_detections : Bool
  pub publish_health : Bool
  pub publish_performance : Bool
  pub transport_mode : List ℕ
  pub validate_e2e : Bool
  pub e2e_strict : Bool

-- The defaults; 300.0 by its bits.
unfoldable pub declare_parameters : Parameters
declare_parameters = record {
  sensor_ip = codes "192.168.10.150";
  config_port = 30500;
  host_ip = codes "auto";
  data_port = 30509;
  shi_port = 30510;
  spi_port = 30511;
  frame_id = codes "afi920";
  parent_frame_id = codes "base_link";
  publish_tf = true;
  min_range = 0;
  max_range = 0x4072_c000_0000_0000;
  min_snr = 0;
  min_existence_probability = 0;
  publish_detections = true;
  publish_health = true;
  publish_performance = true;
  transport_mode = codes "tcp";
  validate_e2e = true;
  e2e_strict = false;
}

-- The members that the streams use; the others keep the names of their parameters.
unfoldable pub read_parameters : Parameters → Node → Node
read_parameters p n = record n {
  frame_id = p.frame_id;
  parent_frame_id = p.parent_frame_id;
  min_range = p.min_range;
  max_range = p.max_range;
  min_snr = p.min_snr;
  min_existence_probability = p.min_existence_probability;
  publish_detections = p.publish_detections;
  validate_e2e = p.validate_e2e;
  e2e_strict = p.e2e_strict;
}

abbrev pub same_text : List ℕ → List ℕ → Bool
same_text [] [] = true
same_text [] (d ∷ ds) = false
same_text (c ∷ cs) [] = false
same_text (c ∷ cs) (d ∷ ds) = c == d && same_text cs ds

-- The members that no constructor has filled yet.
abbrev pub node_unset : Node
node_unset = record node_init {
  pub_pointcloud = false;
  pub_rdi = false;
  pub_shi = false;
  pub_spi = false;
  tf_broadcaster = false;
  pub_marker = false;
}

-- The publishers, the broadcaster and the builder.
unfoldable pub create_publishers : Parameters → Node → Node
create_publishers p n = record n {
  pub_pointcloud = true;
  pub_rdi = p.publish_detections;
  pub_shi = p.publish_health;
  pub_spi = p.publish_performance;
  pub_marker = true;
  tf_broadcaster = p.publish_tf && p.publish_performance;
  pc_builder = some (record {
    frame_id = n.frame_id;
    min_range = n.min_range;
    max_range = n.max_range;
    min_snr = n.min_snr;
    min_existence_probability = n.min_existence_probability;
  });
}

-- The host that the sensor is to stream to, and how that went; nothing where no address was found.
unfoldable pub configure_sensor : Parameters → LocalSystem → ConfigSystem → Option Configured
unfolding detect_local_ip configure_streams
configure_sensor p l w =
    let host = if same_text p.host_ip (codes "auto") then (detect_local_ip l).0 else p.host_ip in
    if same_text host []
    then none
    else some (
        configure_streams host (p.data_port % 2 ^ 16) (p.shi_port % 2 ^ 16) (p.spi_port % 2 ^ 16)
          p.transport_mode w)

-- The two kinds of `std::unique_ptr<StreamReceiver>`.
pub data Receiver : Type 0 where
  over_tcp : Tcp.TcpStreamClient → Receiver
  over_udp : Udp.UdpReceiver → Receiver

-- What the system answers to `Connect`, in either case.
pub record Network : Type 0 where
  pub dial : Tcp.Dial
  pub bind : Udp.Bind

unfoldable pub create_receiver : Parameters → ℕ → Receiver
create_receiver p port =
    if same_text p.transport_mode (codes "tcp")
    then over_tcp Tcp.tcp_stream_client_init
    else over_udp (Udp.udp_receiver_init (port % 2 ^ 16))

unfoldable pub connect : Network → Receiver → ℤ × Receiver
unfolding Tcp.connect Udp.connect
connect net (over_tcp c) = let (rc, after, gone) = Tcp.connect c net.dial in (rc, over_tcp after)
connect net (over_udp r) = let (rc, after, gone) = Udp.connect r net.bind in (rc, over_udp after)

unfoldable pub is_open : Receiver → Bool
unfolding Tcp.is_open Udp.is_open
is_open (over_tcp c) = Tcp.is_open c
is_open (over_udp r) = Udp.is_open r

unfoldable pub close : Receiver → Receiver
unfolding Tcp.close Udp.close
close (over_tcp c) = over_tcp (Tcp.close c).0
close (over_udp r) = over_udp (Udp.close r).0

-- The node with its receivers; which threads run; and whether `rclcpp::shutdown` was called.
pub record Driver : Type 0 where
  pub node : Node
  pub configured : Option Configured
  pub rdi_receiver : Receiver
  pub shi_receiver : Receiver
  pub spi_receiver : Receiver
  pub running : Bool
  pub rdi_thread : Bool
  pub shi_thread : Bool
  pub spi_thread : Bool
  pub has_callback : Bool
  pub has_shut_down : Bool

pub record Environment : Type 0 where
  pub local : LocalSystem
  pub config : ConfigSystem
  pub rdi_network : Network
  pub shi_network : Network
  pub spi_network : Network

-- A stream that is not enabled is not connected.
unfoldable pub connect_if : Bool → Network → Receiver → Bool × Receiver
unfolding connect
connect_if false net r = (false, r)
connect_if true net r = let (rc, after) = connect net r in (not (is_negative rc), after)

unfoldable pub start : Parameters → Environment → Driver
unfolding create_publishers read_parameters configure_sensor connect_if create_receiver is_open
start p env =
    let n = create_publishers p (read_parameters p node_unset) in
    let outcome = configure_sensor p env.local env.config in
    let (rdi, rdi_receiver) = connect_if true env.rdi_network (create_receiver p p.data_port) in
    let (shi, shi_receiver) =
      connect_if p.publish_health env.shi_network (create_receiver p p.shi_port) in
    let (spi, spi_receiver) =
      connect_if p.publish_performance env.spi_network (create_receiver p p.spi_port) in
    let any = rdi || shi || spi in
    record {
      node = n;
      configured = outcome;
      rdi_receiver = rdi_receiver;
      shi_receiver = shi_receiver;
      spi_receiver = spi_receiver;
      running = any;
      rdi_thread = any && is_open rdi_receiver;
      shi_thread = any && p.publish_health && is_open shi_receiver;
      spi_thread = any && p.publish_performance && is_open spi_receiver;
      has_callback = any;
      has_shut_down = not any;
    }

-- The destructor; each thread that runs is waited for.
unfoldable pub stop : Driver → Driver
unfolding close
stop d = record d {
  running = false;
  rdi_receiver = close d.rdi_receiver;
  shi_receiver = close d.shi_receiver;
  spi_receiver = close d.spi_receiver;
  rdi_thread = false;
  shi_thread = false;
  spi_thread = false;
}
