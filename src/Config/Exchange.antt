-- ===== src/Config/Exchange.antt =====
-- What comes of asking the sensor.
use afi920_ros2_driver.Base.{
  lt→ltb, le→ltb, Bool-cases, is_negative, length, get_or, take_all, ℕ, ◌+◌, ◌-◌, ◌≤◌, ◌≡◌, refl,
  inl, inr, true, false, not, ◌||◌, List, [], ◌∷◌, append-nil, arith,
}
use afi920_ros2_driver.Config.Pieces.{Pieces, recv_exact-Pieces, taken, sum, send_all-taken}
use afi920_ros2_driver.Wire.{join_be32}
use afi920_ros2_driver.Config.{
  ConfigSystem, configure_streams, LocalSystem, detect_local_ip, exchange, read_response, read_body,
  check_response, header_size, max_body, join_be32,
}
use afi920_ros2_driver.Transport.Tcp.{Recv, close_valid}

configure_closes :
    (host_ip : List ℕ) (data_port shi_port spi_port : ℕ) (transport_mode : List ℕ)
    → (w : ConfigSystem)
    → (configure_streams host_ip data_port shi_port spi_port transport_mode w).gone
      ≡ close_valid w.socket
unfolding configure_streams exchange
configure_closes host_ip data_port shi_port spi_port transport_mode w =
    elim (Bool-cases (is_negative w.socket)) [
      | inl e ↦ rw e refl
      | inr e ↦ elim (Bool-cases w.address_parsed) [
        | inr f ↦ rw (e, f) refl
        | inl f ↦ elim (Bool-cases w.connected) [
          | inl g ↦ rw (e, f, g) refl
          | inr g ↦ rw (e, f, g) refl
        ]
      ]
    ]

detect_closes : (w : LocalSystem) → (detect_local_ip w).1 ≡ close_valid w.local_socket
unfolding detect_local_ip
detect_closes w = elim (Bool-cases (is_negative w.local_socket)) [
  | inl e ↦ rw e refl
  | inr e ↦ elim (Bool-cases (not w.remote_parsed || not w.routed || not w.named)) [
    | inl f ↦ rw (e, f) refl
    | inr f ↦ rw (e, f) refl
  ]
]

-- Whatever the system and the sensor answer, the descriptor that the system hands out is closed, once:
-- by `configure_streams`, and by `detect_local_ip`.
pub configure_streams_closes :
    (host_ip : List ℕ) (data_port shi_port spi_port : ℕ) (transport_mode : List ℕ)
    → (w : ConfigSystem) (l : LocalSystem)
    → ((configure_streams host_ip data_port shi_port spi_port transport_mode w).gone
        ≡ close_valid w.socket)
      × ((detect_local_ip l).1 ≡ close_valid l.local_socket)
configure_streams_closes host_ip data_port shi_port spi_port transport_mode w l =
    (configure_closes host_ip data_port shi_port spi_port transport_mode w, detect_closes l)

-- A response of 16 bytes and a body of the size that it declares, of at most 1 MiB.
pub record IsResponse (hdr body : List ℕ) : Type 0 where
  pub head : length hdr ≡ header_size
  pub declared :
      join_be32 (get_or hdr 4 0) (get_or hdr 5 0) (get_or hdr 6 0) (get_or hdr 7 0)
      ≡ 8 + length body
  pub small : length body ≤ max_body

read_body-Pieces :
    (r a : List Recv) (body : List ℕ)
    → length body ≤ max_body
    → Pieces r a body
    → read_body (8 + length body) a ≡ body
unfolding read_body
read_body-Pieces r a [] small c = refl
read_body-Pieces r a (x ∷ xs) small c =
    let n = length (x ∷ xs) in
    let e : 8 + n - 8 ≡ n = omega arith in
    let z : n - n ≡ 0 = omega arith in
    rw
      (
        lt→ltb 8 (8 + n) (omega arith),
        e,
        le→ltb max_body n small,
        recv_exact-Pieces r n [] a (x ∷ xs) c (omega arith),
        z,
      )
      (append-nil (x ∷ xs))

read_response-Pieces :
    (r b a : List Recv) (hdr body : List ℕ)
    → IsResponse hdr body
    → Pieces b a hdr
    → Pieces r b body
    → read_response a ≡ check_response hdr body
unfolding read_response
read_response-Pieces r b a hdr body v head tail =
    rw
      (
        recv_exact-Pieces b header_size [] a hdr head (omega (arith, v.head)),
        v.declared,
        read_body-Pieces r b body v.small tail,
      )
      refl

-- The socket can be connected, the system takes the request in any pieces, and the sensor answers
-- with a response of 16 bytes and a body of the declared size of at most 1 MiB, each in any pieces.
-- Then the whole request goes out, and the result is the one that the checks give for that response.
pub exchange_response :
    (request : List ℕ) (w : ConfigSystem) (ks : List ℕ) (r b : List Recv) (hdr body : List ℕ)
    → is_negative w.socket ≡ false
    → w.address_parsed ≡ true
    → w.connected ≡ true
    → w.sends ≡ taken ks
    → sum ks ≡ length request
    → IsResponse hdr body
    → Pieces b w.answers hdr
    → Pieces r b body
    → exchange request w
      ≡ record { result = check_response hdr body; sent = request; gone = w.socket ∷ [] }
unfolding exchange
exchange_response request w ks r b hdr body fd parsed there sends whole v head tail =
    rw
      (
        fd,
        parsed,
        there,
        sends,
        send_all-taken (length request) 0 ks (omega arith),
        read_response-Pieces r b w.answers hdr body v head tail,
        take_all (length request) request refl,
      )
      refl
