-- ===== src/Node/Threads/Sound.antt =====
-- The threads on a receiver that keeps its promises: what they read and write of their buffers, and
-- what they publish.
use afi920_ros2_driver.Base.{
  le→ltb, ℤ, pos, negsuc, length, drop, replicate, All, length-append, length-take, length-drop,
  length-replicate, All-append, Access, ok, fault, memcpy, Safe, Safe-bind, ℕ, zero, suc, ◌^◌, ◌≤◌,
  ◌<◌, ◌≡◌, refl, ap, ◌∙◌, ◌⊎◌, inl, inr, Bool, true, false, List, [], ◌++◌, arith, memcpy_whole,
}
use afi920_ros2_driver.Node.Spi.{process_spi_datagram}
use afi920_ros2_driver.Node.Shi.{process_shi_datagram}
use afi920_ros2_driver.Node.Spi.Total.{IsSpiEvent, SpiSoundFrom, process_spi_datagram-SpiSoundFrom}
use afi920_ros2_driver.Node.Shi.Total.{IsHealthEvent, SoundFrom, process_shi_datagram-SoundFrom}
use afi920_ros2_driver.Node.Rdi.{process_rdi_datagram}
use afi920_ros2_driver.Node.Rdi.Total.{IsEvent, Sound, process_rdi_datagram-Sound}
use afi920_ros2_driver.Someip.Tp.Bounded.{IsReassembler}
use afi920_ros2_driver.Node.Threads.{
  Thread, Process, stopped, Clock, receiving, handle_received, front_of, thread_loop, thread_round,
  rdi_thread_func, Next, rdi_buf_size, process_rdi_datagram, shi_thread_func, spi_thread_func,
  process_shi_datagram, small_buf_size, process_spi_datagram,
}
use afi920_ros2_driver.Node.Types.{Node, Event, Clock}
use afi920_ros2_driver.Transport.StreamReceiver.{
  Outcome, result, waits, StreamReceiver, IsStreamReceiver, IsCount, Promised,
}

module _ {ℓ κ} {S : Type ℓ} {W : Type κ} (Inv : Node → Type 0) (Q : Event → Type 0) where
  abbrev pub EndsWell : Thread S W → Type 0
  EndsWell (stopped s w n events) = Inv n × All Q events
  EndsWell (receiving s w n events) = Inv n × All Q events

abbrev pub Keeps : (Node → Type 0) → (Event → Type 0) → ℕ → Process → Type 0
Keeps Inv Q size process =
    (n : Node) (clock : Clock) (datagram : List ℕ)
    → length datagram ≤ size
    → Inv n
    → Safe (λ (r : Node × List Event). Inv r.0 × All Q r.1) (process n clock datagram)

front_of-Safe :
    (buf : List ℕ) (n : ℕ) → n ≤ length buf → Safe (λ (xs : List ℕ). length xs ≡ n) (front_of buf n)
unfolding front_of
front_of-Safe buf n h = rw (le→ltb (length buf) n h) (omega (arith, length-take n buf))

handle_received-Keeps :
    (Inv : Node → Type 0) (Q : Event → Type 0) (size : ℕ) (process : Process)
    → Keeps Inv Q size process
    → (n : Node) (c : Clock) (rc : ℤ) (xs buf : List ℕ) → length xs ≤ size
    → IsCount rc xs
    → length buf ≡ size
    → Inv n
    → Safe (λ (r : Node × List Event). Inv r.0 × All Q r.1) (handle_received process n c rc buf)
unfolding handle_received
handle_received-Keeps Inv Q size process keeps n c (negsuc m) xs buf short v e h = (h, tt)
handle_received-Keeps Inv Q size process keeps n c (pos zero) xs buf short v e h = (h, tt)
handle_received-Keeps Inv Q size process keeps n c (pos (suc m)) xs buf short v e h =
    Safe-bind (λ (ys : List ℕ). length ys ≡ suc m) (λ (r : Node × List Event). Inv r.0 × All Q r.1)
      (front_of buf (suc m)) (process n c) (front_of-Safe buf (suc m) (counted v))
      (λ ys g. keeps n c ys (omega (arith, counted v)) h)
  where
    counted : (suc m ≡ 0) ⊎ (suc m ≡ length xs) → suc m ≤ length buf
    counted (inl z) = absurd (omega arith)
    counted (inr f) = omega arith

-- A write that fits leaves a buffer of the same size.
write-Safe :
    (buf xs : List ℕ) (size : ℕ)
    → length buf ≡ size
    → length xs ≤ size
    → Safe (λ (b : List ℕ). length b ≡ size) (memcpy buf xs (length xs))
write-Safe buf xs size e h =
    rw (memcpy_whole buf xs (omega arith))
      (omega (arith, length-append xs (drop (length xs) buf), length-drop {0} (length xs) buf))

module _ {ℓ κ} {S : Type ℓ} {W : Type κ} (Inv : Node → Type 0) (Q : Event → Type 0)
    (process : Process) (size : ℕ) (keeps : Keeps Inv Q size process) where
  thread_round-EndsWell :
      (c : Clock) (o : Outcome S W) (buf : List ℕ) (s : S) (w : W) (n : Node) (events : List Event)
      → (next : Next S W) → Promised size o
      → length buf ≡ size
      → Inv n
      → All Q events
      → ((buf1 : List ℕ) (s1 : S) (w1 : W) (n1 : Node) (more : List Event)
          → length buf1 ≡ size
          → Inv n1
          → All Q more
          → Safe (EndsWell Inv Q) (next buf1 s1 w1 n1 more))
      → Safe (EndsWell Inv Q) (thread_round process c o buf s w n events next)
  unfolding thread_round
  thread_round-EndsWell c waits buf s w n events next v e h q k = (h, q)
  thread_round-EndsWell c (result rc xs s1 w1) buf s w n events next (short, v) e h q k =
      Safe-bind (λ (b : List ℕ). length b ≡ size) (EndsWell Inv Q) (memcpy buf xs (length xs)) _
        (write-Safe buf xs size e short)
        (λ b eb.
          Safe-bind {A = Node × List Event} (λ r. Inv r.0 × All Q r.1) (EndsWell Inv Q)
            (handle_received process n c rc b) (λ r. next b s1 w1 r.0 (events ++ r.1))
            (handle_received-Keeps Inv Q size process keeps n c rc xs b short v eb h)
            (λ r g. k b s1 w1 r.0 (events ++ r.1) eb g.0 (All-append Q events r.1 q g.1)))

module _ {ℓ κ} {S : Type ℓ} {W : Type κ} ⦃receiver : StreamReceiver S W⦄
    ⦃laws : IsStreamReceiver S W⦄ (Inv : Node → Type 0) (Q : Event → Type 0) (process : Process)
    (size : ℕ) (clock : ℕ → Clock) (small : size < 2 ^ 31) (keeps : Keeps Inv Q size process) where
  thread_loop-EndsWell :
      (rounds : ℕ) (buf : List ℕ) (s : S) (w : W) (n : Node) (events : List Event)
      → length buf ≡ size
      → Inv n
      → All Q events
      → Safe (EndsWell Inv Q) (thread_loop process size clock rounds buf s w n events)
  unfolding thread_loop
  thread_loop-EndsWell zero buf s w n events e h q = (h, q)
  thread_loop-EndsWell (suc rounds) buf s w n events e h q =
      thread_round-EndsWell Inv Q process size keeps (clock rounds) (receiver.receive s w size) buf
        s w n events (thread_loop process size clock rounds) (laws.receive_counts s w size small) e
        h q (thread_loop-EndsWell rounds)

module _ {ℓ κ} {S : Type ℓ} {W : Type κ} ⦃receiver : StreamReceiver S W⦄
    ⦃laws : IsStreamReceiver S W⦄ (rounds : ℕ) (clock : ℕ → Clock) (s : S) (w : W) (n : Node) where
  -- On a receiver that keeps the promises of the interface, however long the RDI thread runs: nothing is
  -- written behind its buffer, no byte behind the buffer, a datagram or the reassembled payload is read,
  -- the payload of the reassembler stays within its buffer, and every frame of which something is
  -- published holds as many detections as it announces.
  pub rdi_thread_func-EndsWell :
      (is_tcp : Bool)
      → IsReassembler n.rdi_tp
      → Safe
          (EndsWell (λ (m : Node). IsReassembler m.rdi_tp) IsEvent)
          (rdi_thread_func rounds clock s w n is_tcp)
  unfolding rdi_thread_func
  rdi_thread_func-EndsWell is_tcp h =
      let size = rdi_buf_size is_tcp in
      thread_loop-EndsWell (λ (m : Node). IsReassembler m.rdi_tp) IsEvent process_rdi_datagram size
        clock (fits is_tcp) (λ m c datagram short. keeps m c datagram is_tcp short) rounds
        (replicate size 0) s w n [] (length-replicate size 0) h tt
    where
      fits : (b : Bool) → rdi_buf_size b < 2 ^ 31
      fits true = omega arith
      fits false = omega arith

      keeps :
          (m : Node) (c : Clock) (datagram : List ℕ) (b : Bool)
          → length datagram ≤ rdi_buf_size b
          → IsReassembler m.rdi_tp
          → Safe Sound (process_rdi_datagram m c datagram)
      keeps m c datagram true short h = process_rdi_datagram-Sound m c datagram (omega arith) h
      keeps m c datagram false short h = process_rdi_datagram-Sound m c datagram (omega arith) h

Safe-map {ℓ} :
    {A : Type ℓ} (P Q : A → Type 0) (m : Access A) → Safe P m → ((a : A) → P a → Q a) → Safe Q m
Safe-map P Q (ok a) s k = k a s
Safe-map P Q fault s k = s

-- The nodes that differ in the counter of one stream.
abbrev pub ShiOf : Node → Node → Type 0
ShiOf n m = m ≡ record n { first_shi = m.first_shi; last_shi_counter = m.last_shi_counter }

abbrev pub SpiOf : Node → Node → Type 0
SpiOf n m = m ≡ record n { first_spi = m.first_spi; last_spi_counter = m.last_spi_counter }

module _ {ℓ κ} {S : Type ℓ} {W : Type κ} ⦃receiver : StreamReceiver S W⦄
    ⦃laws : IsStreamReceiver S W⦄ (rounds : ℕ) (clock : ℕ → Clock) (s : S) (w : W) (n : Node) where
  -- On receivers that keep the promises of the interface, however long the SHII and the SPI thread run:
  -- nothing is written or read behind their buffers, no byte behind a datagram is read, each changes
  -- nothing in the node but the counter of its stream, and publishes only health messages whose counts
  -- stay within their arrays, or only performance messages with at most 16 segments, object types and
  -- targets, and transforms.
  pub side_threads-EndsWell :
      Safe (EndsWell (ShiOf n) IsHealthEvent) (shi_thread_func rounds clock s w n)
      × Safe (EndsWell (SpiOf n) IsSpiEvent) (spi_thread_func rounds clock s w n)
  unfolding shi_thread_func spi_thread_func
  side_threads-EndsWell = (
    thread_loop-EndsWell (ShiOf n) IsHealthEvent process_shi_datagram small_buf_size clock
        (omega arith)
        (λ m c datagram short h.
          Safe-map (SoundFrom m) (λ r. ShiOf n r.0 × All IsHealthEvent r.1) _
            (process_shi_datagram-SoundFrom m c datagram)
            (λ r g. (
              g.0
                  ∙ ap
                      (λ (x : Node). record x {
                        first_shi = r.0.first_shi;
                        last_shi_counter = r.0.last_shi_counter;
                      })
                      h,
              g.1,
            )))
        rounds (replicate small_buf_size 0) s w n [] (length-replicate {A = ℕ} small_buf_size 0)
        refl tt,
    thread_loop-EndsWell (SpiOf n) IsSpiEvent process_spi_datagram small_buf_size clock
        (omega arith)
        (λ m c datagram short h.
          Safe-map (SpiSoundFrom m) (λ r. SpiOf n r.0 × All IsSpiEvent r.1) _
            (process_spi_datagram-SpiSoundFrom m c datagram)
            (λ r g. (
              g.0
                  ∙ ap
                      (λ (x : Node). record x {
                        first_spi = r.0.first_spi;
                        last_spi_counter = r.0.last_spi_counter;
                      })
                      h,
              g.1,
            )))
        rounds (replicate small_buf_size 0) s w n [] (length-replicate {A = ℕ} small_buf_size 0)
        refl tt,
  )
