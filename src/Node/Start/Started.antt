-- ===== src/Node/Start/Started.antt =====
-- What runs after the constructor.
use afi920_ros2_driver.Base.{
  if◌then◌else◌, Bool-cases, pos, is_negative, ℕ, ◌*◌, ◌%◌, ◌^◌, ◌≡◌, refl, ◌∙◌, inl, inr, Bool,
  true, false, not, ◌&&◌, ◌||◌, some,
}
use afi920_ros2_driver.Node.Types.{Node, PointCloudConfig}
use afi920_ros2_driver.Transport.Tcp.{int_of}
use afi920_ros2_driver.Transport.Tcp.Reconnect.{reachable}
use afi920_ros2_driver.Config.Text.{codes}
use afi920_ros2_driver.Node.Start.{
  Receiver, over_tcp, over_udp, Parameters, Network, Environment, Driver, connect, connect_if,
  create_receiver, is_open, close, start, stop, same_text, create_publishers, read_parameters,
  Receiver,
}
use afi920_ros2_driver.Transport.Tcp.Receiver.{TcpStreamClient-IsStreamReceiver}
use afi920_ros2_driver.Transport.Udp.Receiver.{UdpReceiver-IsStreamReceiver}
use afi920_ros2_driver.Transport.Tcp as Tcp
use afi920_ros2_driver.Transport.Udp as Udp

abbrev pub is_tcp : Parameters → Bool
is_tcp p = same_text p.transport_mode (codes "tcp")

-- A buffer of 16 MiB, and a timeout of one second.
abbrev pub default_options : ℕ → Udp.SocketOptions
default_options port = record {
  reuse = 1;
  receive_buffer = pos (16 * 1024 * 1024);
  timeout_sec = 1;
  timeout_usec = 0;
  bound_port = port % 2 ^ 16;
}

-- The port can be bound.
abbrev pub bindable : ℕ → Udp.Bind → Bool
bindable port b = if is_negative b.socket then false else b.bound (default_options port)

-- A connection can be made in the configured mode.
abbrev pub connectable : Parameters → ℕ → Network → Bool
connectable p port net = if is_tcp p then reachable net.dial else bindable port net.bind

tcp_connects :
    (d : Tcp.Dial)
    → (not (is_negative (Tcp.connect Tcp.tcp_stream_client_init d).0) ≡ reachable d)
      × (Tcp.is_open (Tcp.connect Tcp.tcp_stream_client_init d).1 ≡ reachable d)
unfolding Tcp.connect Tcp.is_open
tcp_connects d = elim (Bool-cases (is_negative d.socket)) [
  | inl e ↦ rw e (refl, refl)
  | inr e ↦
      elim (Bool-cases
        (not d.address_parsed || not d.connect_started || not d.selected || not d.error_free)) [
          | inl f ↦ rw (e, f) (refl, refl)
          | inr f ↦ rw (e, f) (refl, refl)
        ]
]

udp_connects :
    (port : ℕ) (b : Udp.Bind)
    → (not (is_negative (Udp.connect (Udp.udp_receiver_init (port % 2 ^ 16)) b).0)
        ≡ bindable port b)
      × (Udp.is_open (Udp.connect (Udp.udp_receiver_init (port % 2 ^ 16)) b).1 ≡ bindable port b)
unfolding Udp.connect Udp.is_open Udp.socket_options int_of
udp_connects port b = elim (Bool-cases (is_negative b.socket)) [
  | inl e ↦ rw e (refl, rw e refl)
  | inr e ↦ elim (Bool-cases (b.bound (default_options port))) [
    | inl f ↦ rw (e, f) (refl, rw e refl)
    | inr f ↦ rw (e, f) (refl, refl)
  ]
]

connect-connectable :
    (p : Parameters) (port : ℕ) (net : Network)
    → (not (is_negative (connect net (create_receiver p port)).0) ≡ connectable p port net)
      × (is_open (connect net (create_receiver p port)).1 ≡ connectable p port net)
unfolding connect create_receiver is_open
connect-connectable p port net = elim (Bool-cases (is_tcp p)) [
  | inl e ↦ rw e (tcp_connects net.dial)
  | inr e ↦ rw e (udp_connects port net.bind)
]

-- A thread needs its receiver and one connected stream, which may be its own.
kept : (any o there : Bool) → o ≡ there → (there ≡ true → any ≡ true) → (any && o) ≡ there
kept any o true e h = rw (h refl, e) refl
kept true o false e h = e
kept false o false e h = refl

and_assoc : (a b c : Bool) → ((a && b) && c) ≡ (a && (b && c))
and_assoc true b c = refl
and_assoc false b c = refl

one_of :
    (x y z : Bool)
    → (x ≡ true → (x || y || z) ≡ true)
      × (y ≡ true → (x || y || z) ≡ true)
      × (z ≡ true → (x || y || z) ≡ true)
one_of true y z = (λ _. refl, λ _. refl, λ _. refl)
one_of false true z = (λ _. refl, λ _. refl, λ _. refl)
one_of false false true = (λ _. refl, λ _. refl, λ _. refl)
one_of false false false = (λ e. e, λ e. e, λ e. e)

-- The builder's configuration that the parameters ask for.
abbrev pub configured_by : Parameters → PointCloudConfig
configured_by p = record {
  frame_id = p.frame_id;
  min_range = p.min_range;
  max_range = p.max_range;
  min_snr = p.min_snr;
  min_existence_probability = p.min_existence_probability;
}

-- The members that keep a parameter.
pub record IsReadFrom (p : Parameters) (n : Node) : Type 0 where
  pub flags : (n.validate_e2e ≡ p.validate_e2e) × (n.e2e_strict ≡ p.e2e_strict)
  pub frames : (n.frame_id ≡ p.frame_id) × (n.parent_frame_id ≡ p.parent_frame_id)
  pub limits :
      (n.min_range ≡ p.min_range)
      × (n.max_range ≡ p.max_range)
      × (n.min_snr ≡ p.min_snr)
      × (n.min_existence_probability ≡ p.min_existence_probability)
  pub listed : n.publish_detections ≡ p.publish_detections

module _ (p : Parameters) (env : Environment) where
  abbrev rdi_there : Bool
  rdi_there = connectable p p.data_port env.rdi_network

  abbrev shi_there : Bool
  shi_there = p.publish_health && connectable p p.shi_port env.shi_network

  abbrev spi_there : Bool
  spi_there = p.publish_performance && connectable p p.spi_port env.spi_network

  -- Which parts of a started driver are there.
  pub record IsStarted (d : Driver) : Type 0 where
    pub rdi : d.rdi_thread ≡ rdi_there
    pub shi : d.shi_thread ≡ shi_there
    pub spi : d.spi_thread ≡ spi_there
    pub runs : d.running ≡ (rdi_there || shi_there || spi_there)
    pub shut : d.has_shut_down ≡ not (rdi_there || shi_there || spi_there)
    pub builder : d.node.pc_builder ≡ some (configured_by p)
    pub members : IsReadFrom p d.node
    pub publishers :
        (d.node.pub_pointcloud ≡ true)
        × (d.node.pub_rdi ≡ p.publish_detections)
        × (d.node.pub_shi ≡ p.publish_health)
        × (d.node.pub_spi ≡ p.publish_performance)
    pub broadcasts : d.node.tf_broadcaster ≡ p.publish_tf && p.publish_performance

  connect_if-connectable :
      (b : Bool) (port : ℕ) (net : Network)
      → ((connect_if b net (create_receiver p port)).0 ≡ b && connectable p port net)
        × ((b && is_open (connect_if b net (create_receiver p port)).1)
            ≡ b && connectable p port net)
  unfolding connect_if
  connect_if-connectable true port net = connect-connectable p port net
  connect_if-connectable false port net = (refl, refl)

  -- The thread of a stream runs if and only if the stream is enabled and its receiver could be connected,
  -- over the transport that the parameters name; if none could, ROS is shut down and no thread runs. The
  -- point cloud builder has the frame and the four limits of the parameters, the members of the node that
  -- keep a parameter have its value, and there is a publisher of clouds and one for each enabled stream. A
  -- transform is broadcast where the parameter and the performance stream, which carries the pose, are
  -- both enabled.
  pub start-IsStarted : IsStarted (start p env)
  unfolding start create_publishers read_parameters
  start-IsStarted =
      let (a, a') = connect_if-connectable true p.data_port env.rdi_network in
      let (b, b') = connect_if-connectable p.publish_health p.shi_port env.shi_network in
      let (c, c') = connect_if-connectable p.publish_performance p.spi_port env.spi_network in
      record {
        rdi = rw (a, b, c) (kept _ _ _ a' (one_of rdi_there shi_there spi_there).0);
        shi =
            rw (a, b, c)
              (and_assoc (rdi_there || shi_there || spi_there) _ _
                ∙ kept _ _ _ b' (one_of rdi_there shi_there spi_there).1);
        spi =
            rw (a, b, c)
              (and_assoc (rdi_there || shi_there || spi_there) _ _
                ∙ kept _ _ _ c' (one_of rdi_there shi_there spi_there).2);
        runs = rw (a, b, c) refl;
        shut = rw (a, b, c) refl;
        builder = refl;
        members = record {
          flags = (refl, refl);
          frames = (refl, refl);
          limits = (refl, refl, refl, refl);
          listed = refl;
        };
        publishers = (refl, refl, refl, refl);
        broadcasts = refl;
      }

-- The destructor leaves no receiver open and no thread running.
pub stop_closes :
    (d : Driver)
    → ((stop d).running ≡ false)
      × (is_open (stop d).rdi_receiver ≡ false)
      × (is_open (stop d).shi_receiver ≡ false)
      × (is_open (stop d).spi_receiver ≡ false)
unfolding stop close is_open
stop_closes d = (refl, closed d.rdi_receiver, closed d.shi_receiver, closed d.spi_receiver)
  where
    closed : (r : Receiver) → is_open (close r) ≡ false
    closed (over_tcp c) = TcpStreamClient-IsStreamReceiver.close_closes c
    closed (over_udp r) = UdpReceiver-IsStreamReceiver.close_closes r
